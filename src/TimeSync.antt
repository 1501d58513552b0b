-- ===== src/TimeSync.antt =====
-- components/app_time_sync/app_time_sync.c. The year that the clock shows, and what the SNTP service answers to
-- the `i`-th wait, are arguments.
use captive_portal_esp.Base.{
  if◌then◌else◌, ℕ, zero, suc, ◌+◌, ◌-◌, ◌≤◌, ◌<◌, ◌≡◌, refl, Bool, true, false, ltb, ltb→lt, arith,
  Bool-cases, inl, inr, ◌⊎◌, Option, some,
}
use captive_portal_esp.Bytes.{Bytes, codes}
use captive_portal_esp.Esp.{EspErr, timeout}

abbrev pub is_timeout : EspErr → Bool
is_timeout timeout = true
is_timeout _ = false

abbrev pub retry_count : ℕ
retry_count = 20

-- The loop: the waits made when it ends, after `i` waits and `retry` retries. It makes 20 waits at most.
unfoldable pub wait_loop : ℕ → (ℕ → EspErr) → ℕ → ℕ → ℕ
wait_loop zero sync_wait i retry = i
wait_loop (suc fuel) sync_wait i retry = elim (is_timeout (sync_wait i)) [
  | false ↦ i + 1
  | true ↦ elim (ltb (retry + 1) retry_count) [
    | true ↦ wait_loop fuel sync_wait (i + 1) (retry + 1)
    | false ↦ i + 1
  ]
]

unfoldable pub waits : (ℕ → EspErr) → ℕ
waits sync_wait = wait_loop 20 sync_wait 0 0

-- `esp_sntp_config_t`: the server, and whether `time_sync_notification_cb` is told, which only logs.
pub record SntpConfig : Type 0 where
  pub server : Bytes
  pub notifies : Bool

-- The service that was set up and the waits for it, and the variable "TZ".
pub record Clock : Type 0 where
  pub sntp : Option SntpConfig
  pub time_waits : ℕ
  pub timezone : Option Bytes

unfoldable pub obtain_time : (ℕ → EspErr) → Clock → Clock
obtain_time sync_wait k = record k {
  sntp = some (record { server = codes "pool.ntp.org"; notifies = true });
  time_waits = k.time_waits + waits sync_wait;
}

-- `tm_year` counts from 1900; the time is set if it is 2016 or later.
unfoldable pub time_sync_init : ℕ → (ℕ → EspErr) → Clock → Clock
time_sync_init tm_year sync_wait k =
    let after = if ltb tm_year (2016 - 1900) then obtain_time sync_wait k else k in
    record after { timezone = some (codes "EST5EDT,M3.2.0/2,M11.1.0") }

-- From the `i`-th wait on, the loop ends behind `n` waits, at most 20: all but the last timed out, and
-- so did the last if there are 20.
abbrev pub Waited : (ℕ → EspErr) → ℕ → ℕ → Type 0
Waited f i n =
    (i < n)
    × (n ≤ 20)
    × ((k : ℕ) → i ≤ k → k + 1 < n → is_timeout (f k) ≡ true)
    × (n < 20 → is_timeout (f (n - 1)) ≡ false)

last_wait :
    (f : ℕ → EspErr) (i : ℕ) → i < 20 → (i + 1 < 20 → is_timeout (f i) ≡ false) → Waited f i (i + 1)
last_wait f i less h = (
  omega arith,
  omega arith,
  (λ k from to. absurd (omega arith)),
  (λ few. let same : i + 1 - 1 ≡ i = omega arith in rw same (h few)),
)

earlier_wait :
    (f : ℕ → EspErr) (i n : ℕ) → is_timeout (f i) ≡ true → Waited f (i + 1) n → Waited f i n
earlier_wait f i n here (more, bound, before, last) = (
  omega (arith, more),
  bound,
  (λ k from to. elim (Bool-cases (ltb i k)) [
    | inl later ↦ before k (ground arith) to
    | inr first ↦ let same : k ≡ i = ground arith in rw same here
  ]),
  last,
)

Waited-wait_loop :
    (fuel : ℕ) (f : ℕ → EspErr) (i : ℕ) → i < 20 → fuel + i ≡ 20 → Waited f i (wait_loop fuel f i i)
unfolding wait_loop
Waited-wait_loop zero f i less size = absurd (omega arith)
Waited-wait_loop (suc fuel) f i less size = elim (Bool-cases (is_timeout (f i))) [
  | inr answered ↦ rw (wait_loop, answered) (last_wait f i less (λ few. answered))
  | inl timed_out ↦ elim (Bool-cases (ltb (i + 1) 20)) [
    | inl again ↦
        rw (wait_loop, timed_out, again)
          (earlier_wait f i _ timed_out
            (Waited-wait_loop fuel f (i + 1) (ltb→lt _ _ again) (omega arith)))
    | inr enough ↦
        rw (wait_loop, timed_out, enough) (last_wait f i less (λ few. absurd (ground arith)))
  ]
]

-- Whatever the SNTP service answers, the wait for the time ends after at most 20 waits: all but
-- the last timed out, and so did the last if there are 20.
pub waits-Waited : (sync_wait : ℕ → EspErr) → Waited sync_wait 0 (waits sync_wait)
unfolding waits
waits-Waited sync_wait = Waited-wait_loop 20 sync_wait 0 (omega arith) refl

-- The time zone is Toronto's. Where the clock shows a year before 2016, the service is set up for the server
-- and was waited for; where it shows a later one, nothing else changed.
abbrev pub Synchronised : ℕ → (ℕ → EspErr) → Clock → Clock → Type 0
Synchronised tm_year sync_wait k k' =
    (k'.timezone ≡ some (codes "EST5EDT,M3.2.0/2,M11.1.0"))
    × (((1900 + tm_year < 2016)
          × (k'.sntp ≡ some (record { server = codes "pool.ntp.org"; notifies = true }))
          × ((n : ℕ) × (k'.time_waits ≡ k.time_waits + n) × Waited sync_wait 0 n))
        ⊎ ((2016 ≤ 1900 + tm_year) × (k'.sntp ≡ k.sntp) × (k'.time_waits ≡ k.time_waits)))

-- Whatever the clock shows and the SNTP service answers: the time zone is set; where the clock
-- shows a year before 2016, the service is set up for its server and 1 to 20 waits are made, all
-- but the last of which timed out, and so did the last if there are 20; where it shows a later
-- one, neither happens.
pub time_sync_init-Synchronised :
    (tm_year : ℕ) (sync_wait : ℕ → EspErr) (k : Clock)
    → Synchronised tm_year sync_wait k (time_sync_init tm_year sync_wait k)
unfolding time_sync_init obtain_time
time_sync_init-Synchronised tm_year sync_wait k = elim (Bool-cases (ltb tm_year (2016 - 1900))) [
  | inl unset ↦
      rw unset (refl, inl (ground arith, refl, (waits sync_wait, refl, waits-Waited sync_wait)))
  | inr set ↦ rw set (refl, inr (ground arith, refl, refl))
]
