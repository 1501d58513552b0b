-- ===== src/Dns/Sockets.antt =====
-- `dns_server_task` of components/app_local_server/dns_server.c: its calls of the socket library, whose answers
-- are an argument.
use captive_portal_esp.Base.{
  Bool, true, false, none, some, List, [], ◌∷◌, ◌++◌, if◌then◌else◌, take,
}
use captive_portal_esp.Bytes.{Bytes}
use captive_portal_esp.Dns.{respond}

-- What one `recvfrom` brings: nothing, or a datagram, with whether a reply to it could be sent.
pub data Heard : Type 0 where
  recv_failed : Heard
  datagram : Bytes → Bool → Heard

-- What one round of the outer loop meets. A list that ends is a server that still waits.
pub data Round : Type 0 where
  no_socket : Round
  with_socket : List Heard → Round

pub data SocketCall : Type 0 where
  opens binds receives receive_fails shuts closes : SocketCall
  sends : Bytes → SocketCall

abbrev pub before : SocketCall → List SocketCall × Bool → List SocketCall × Bool
before call (calls, alive) = (call ∷ calls, alive)

-- The inner loop: its calls, and whether it still waits. 127 bytes are read at most.
unfoldable pub listen : Bytes → List Heard → List SocketCall × Bool
listen ip_addr [] = ([], true)
listen ip_addr (recv_failed ∷ more) = (receive_fails ∷ closes ∷ [], false)
listen ip_addr (datagram rx can_send ∷ more) =
    let rest = listen ip_addr more in
    elim (respond ip_addr (take 127 rx)) [
      | none ↦ before receives rest
      | some reply ↦ before receives (before (sends reply) (if can_send then rest else ([], false)))
    ]

-- The task: its calls, and whether it still waits for a datagram. It goes on whatever `bind` returns.
unfoldable pub dns_server_task : Bytes → List Round → List SocketCall × Bool
dns_server_task ip_addr [] = ([], false)
dns_server_task ip_addr (no_socket ∷ rounds) = ([], false)
dns_server_task ip_addr (with_socket heard ∷ rounds) =
    let (calls, alive) = listen ip_addr heard in
    let (later, alive_later) = dns_server_task ip_addr rounds in
    if alive
    then (opens ∷ binds ∷ calls, true)
    else (opens ∷ binds ∷ (calls ++ (shuts ∷ closes ∷ later)), alive_later)
