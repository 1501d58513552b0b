-- ===== src/Dns/Closed.antt =====
-- The sockets of `dns_server_task` of components/app_local_server/dns_server.c: how many are opened and closed, and in
-- what order.
use captive_portal_esp.Base.{
  ℕ, ◌+◌, ◌≡◌, refl, ap, ◌∙◌, Option, Bool, true, false, none, some, List, [], ◌∷◌, ◌++◌,
  if◌then◌else◌, take, arith, Bool-cases, Option-cases, inl, inr,
}
use captive_portal_esp.Bytes.{Bytes}
use captive_portal_esp.Dns.{respond}
use captive_portal_esp.Dns.Sockets.{
  Heard, recv_failed, datagram, Round, no_socket, with_socket, SocketCall, opens, receives,
  receive_fails, shuts, closes, sends, before, listen, dns_server_task,
}

abbrev counts : SocketCall → SocketCall → ℕ
counts opens opens = 1
counts receive_fails receive_fails = 1
counts closes closes = 1
counts _ _ = 0

abbrev pub count : SocketCall → List SocketCall → ℕ
count c [] = 0
count c (x ∷ xs) = counts c x + count c xs

count-append :
    (c : SocketCall) (xs ys : List SocketCall) → count c (xs ++ ys) ≡ count c xs + count c ys
count-append c [] ys = omega arith
count-append c (x ∷ xs) ys = omega (arith, count-append c xs ys)

abbrev pub alive_count : Bool → ℕ
alive_count true = 1
alive_count false = 0

-- `before` in the counts.
count-before :
    (c call : SocketCall) (out : List SocketCall × Bool)
    → count c (before call out).0 ≡ counts c call + count c out.0
count-before c call (calls, alive) = refl

before_alive : (call : SocketCall) (out : List SocketCall × Bool) → (before call out).1 ≡ out.1
before_alive call (calls, alive) = refl

abbrev Even : List SocketCall × Bool → Type 0
Even (calls, alive) = (count closes calls ≡ count receive_fails calls) × (count opens calls ≡ 0)

Even-if :
    (can_send : Bool) (out : List SocketCall × Bool)
    → Even out
    → Even (if can_send then out else ([], false))
Even-if true out h = h
Even-if false out h = (refl, refl)

-- The inner loop opens no socket, and closes it itself where a receive failed.
listen_closes : (ip_addr : Bytes) (heard : List Heard) → Even (listen ip_addr heard)
unfolding listen
listen_closes ip_addr [] = (refl, refl)
listen_closes ip_addr (recv_failed ∷ more) = (refl, refl)
listen_closes ip_addr (datagram rx can_send ∷ more) =
    elim (Option-cases (respond ip_addr (take 127 rx))) [
      | inl silent ↦
          rw (listen, silent)
            (omega (
              arith,
              listen_closes ip_addr more,
              count-before closes receives (listen ip_addr more),
              count-before receive_fails receives (listen ip_addr more),
              count-before opens receives (listen ip_addr more),
            ))
      | inr (reply, e) ↦
          rw (listen, e)
            (omega (arith, Even-if can_send (listen ip_addr more) (listen_closes ip_addr more)))
    ]

-- The closings, and one more while the server waits, are as many as the sockets and the failed receives.
sockets_counted :
    (ip_addr : Bytes) (rounds : List Round)
    → (let out = dns_server_task ip_addr rounds in
        count closes out.0 + alive_count out.1 ≡ count opens out.0 + count receive_fails out.0)
unfolding dns_server_task
sockets_counted ip_addr [] = omega arith
sockets_counted ip_addr (no_socket ∷ rounds) = omega arith
sockets_counted ip_addr (with_socket heard ∷ rounds) =
    let inner = listen_closes ip_addr heard in
    let calls : List SocketCall = (listen ip_addr heard).0 in
    let later : List SocketCall = (dns_server_task ip_addr rounds).0 in
    let rest = sockets_counted ip_addr rounds in
    let append = λ (c : SocketCall). count-append c calls (shuts ∷ closes ∷ later) in
    elim (Bool-cases (listen ip_addr heard).1) [
      | inl alive ↦ rw (dns_server_task, alive) (omega (arith, inner))
      | inr ended ↦
          rw (dns_server_task, ended)
            (omega (arith, inner, rest, append closes, append opens, append receive_fails))
    ]

-- Whether a socket is open after a call, given whether one is before; `none` where the call is not for this
-- state: a socket is opened where none is open, and used where one is. To shut down or close one that is closed
-- is only an error that the call returns.
abbrev open_after : Bool → SocketCall → Option Bool
open_after is_open closes = some false
open_after is_open shuts = some is_open
open_after false opens = some true
open_after true opens = none
open_after is_open _ = if is_open then some true else none

abbrev pub open_after_all : Option Bool → List SocketCall → Option Bool
open_after_all none calls = none
open_after_all (some is_open) [] = some is_open
open_after_all (some is_open) (c ∷ cs) = open_after_all (open_after is_open c) cs

open_after_all-append :
    (o : Option Bool) (xs ys : List SocketCall)
    → open_after_all o (xs ++ ys) ≡ open_after_all (open_after_all o xs) ys
open_after_all-append none xs ys = refl
open_after_all-append (some is_open) [] ys = refl
open_after_all-append (some is_open) (x ∷ xs) ys =
    open_after_all-append (open_after is_open x) xs ys

-- On an open socket these calls are in order, and it stays open while the server waits.
abbrev InOrder : List SocketCall × Bool → Type 0
InOrder (calls, alive) =
    (is_open : Bool) × (open_after_all (some true) calls ≡ some is_open)
    × (alive ≡ true → is_open ≡ true)

InOrder-before :
    (call : SocketCall) (out : List SocketCall × Bool)
    → open_after true call ≡ some true
    → InOrder out
    → InOrder (before call out)
InOrder-before call (calls, alive) used (is_open, path, still) =
    (is_open, ap (λ o. open_after_all o calls) used ∙ path, still)

InOrder-if :
    (can_send : Bool) (out : List SocketCall × Bool)
    → InOrder out
    → InOrder (if can_send then out else ([], false))
InOrder-if true out h = h
InOrder-if false out h = (true, refl, λ _. refl)

listen-InOrder : (ip_addr : Bytes) (heard : List Heard) → InOrder (listen ip_addr heard)
unfolding listen
listen-InOrder ip_addr [] = (true, refl, λ _. refl)
listen-InOrder ip_addr (recv_failed ∷ more) = (false, refl, λ ended. ended)
listen-InOrder ip_addr (datagram rx can_send ∷ more) =
    let rest = listen-InOrder ip_addr more in
    elim (Option-cases (respond ip_addr (take 127 rx))) [
      | inl silent ↦ rw (listen, silent) (InOrder-before receives (listen ip_addr more) refl rest)
      | inr (reply, e) ↦
          rw (listen, e)
            (let out : List SocketCall × Bool =
                if can_send then listen ip_addr more else ([], false) in
              InOrder-before receives (before (sends reply) out) refl (
                InOrder-before (sends reply) out refl
                  (InOrder-if can_send (listen ip_addr more) rest)))
    ]

sockets_in_order :
    (ip_addr : Bytes) (rounds : List Round)
    → (let out = dns_server_task ip_addr rounds in open_after_all (some false) out.0 ≡ some out.1)
unfolding dns_server_task
sockets_in_order ip_addr [] = refl
sockets_in_order ip_addr (no_socket ∷ rounds) = refl
sockets_in_order ip_addr (with_socket heard ∷ rounds) =
    let (is_open, path, still) = listen-InOrder ip_addr heard in
    let calls : List SocketCall = (listen ip_addr heard).0 in
    let later : List SocketCall = (dns_server_task ip_addr rounds).0 in
    elim (Bool-cases (listen ip_addr heard).1) [
      | inl alive ↦ rw (dns_server_task, alive) (path ∙ ap some (still alive))
      | inr ended ↦
          rw (dns_server_task, ended)
            (open_after_all-append (some true) calls (shuts ∷ closes ∷ later)
              ∙ ap (λ o. open_after_all o (shuts ∷ closes ∷ later)) path
              ∙ sockets_in_order ip_addr rounds)
    ]

-- However the socket calls end, each socket is closed before the next is opened, none is used when
-- it is closed, and one is open at the end exactly if the server still waits; but a socket on
-- which a receive failed is closed twice: the closings, and one more while the server waits, are
-- as many as the sockets and the failed receives.
pub sockets_closed :
    (ip_addr : Bytes) (rounds : List Round)
    → (let out = dns_server_task ip_addr rounds in
        (open_after_all (some false) out.0 ≡ some out.1)
        × (count closes out.0 + alive_count out.1 ≡ count opens out.0 + count receive_fails out.0))
sockets_closed ip_addr rounds = (sockets_in_order ip_addr rounds, sockets_counted ip_addr rounds)
