-- ===== src/Wifi.antt =====
-- components/app_wifi/app_wifi.c: the station's event handler. The driver's calls and the log are not
-- modelled but for the count of `esp_wifi_connect`.
pub mod Scan
pub mod Config
pub mod Configured
use captive_portal_esp.Base.{
  ℕ, zero, suc, ◌+◌, ◌-◌, ◌≤◌, ◌≡◌, List, [], ◌∷◌, if◌then◌else◌, ltb, ltb→lt, arith, min,
  Bool-cases, inl, inr,
}

-- The events that `event_handler` tells apart.
pub data Event : Type 0 where
  sta_start sta_disconnected sta_got_ip other : Event

-- `s_retry_num`, and the calls of `esp_wifi_connect`
pub record Station : Type 0 where
  pub retry_num : ℕ
  pub connects : ℕ

-- `max_retry` is CONFIG_ESP_MAXIMUM_RETRY.
unfoldable pub event_handler : ℕ → Event → Station → Station
event_handler max_retry sta_start s = record s { connects = s.connects + 1 }
event_handler max_retry sta_disconnected s =
    if ltb s.retry_num max_retry
    then record { retry_num = s.retry_num + 1; connects = s.connects + 1 }
    else s
event_handler max_retry sta_got_ip s = record s { retry_num = 0 }
event_handler max_retry other s = s

abbrev pub events_handled : ℕ → List Event → Station → Station
events_handled max_retry [] s = s
events_handled max_retry (e ∷ es) s = events_handled max_retry es (event_handler max_retry e s)

abbrev pub disconnects : ℕ → List Event
disconnects zero = []
disconnects (suc n) = sta_disconnected ∷ disconnects n

-- Whatever the events, the retry counter of the station does not pass the limit if it did not at
-- the start.
pub retries_bounded :
    (max_retry : ℕ) (events : List Event) (s : Station)
    → s.retry_num ≤ max_retry
    → (events_handled max_retry events s).retry_num ≤ max_retry
unfolding event_handler
retries_bounded max_retry [] s h = h
retries_bounded max_retry (sta_start ∷ es) s h = retries_bounded max_retry es _ h
retries_bounded max_retry (sta_disconnected ∷ es) s h =
    elim (Bool-cases (ltb s.retry_num max_retry)) [
      | inl again ↦
          rw (events_handled, again)
            (retries_bounded max_retry es _ (omega (arith, ltb→lt _ _ again)))
      | inr enough ↦ rw (events_handled, enough) (retries_bounded max_retry es s h)
    ]
retries_bounded max_retry (sta_got_ip ∷ es) s h = retries_bounded max_retry es _ (omega arith)
retries_bounded max_retry (other ∷ es) s h = retries_bounded max_retry es s h

retries_from :
    (max_retry n : ℕ) (s : Station)
    → s.retry_num ≤ max_retry
    → (events_handled max_retry (disconnects n) s).connects
      ≡ s.connects + min n (max_retry - s.retry_num)
unfolding event_handler
retries_from max_retry zero s h = omega arith
retries_from max_retry (suc n) s h = elim (Bool-cases (ltb s.retry_num max_retry)) [
  | inl again ↦
      let less = ltb→lt s.retry_num max_retry again in
      rw (events_handled, again)
        (let rest =
            retries_from max_retry n
              (record { retry_num = s.retry_num + 1; connects = s.connects + 1 })
              (omega (arith, less)) in
          omega (arith, rest, less))
  | inr enough ↦
      rw (events_handled, enough) (let rest = retries_from max_retry n s h in ground (arith, rest))
]

-- After an address was obtained, `n` disconnections in a row call esp_wifi_connect `n` times, but
-- no more than the limit of retries.
pub retries_after_got_ip :
    (max_retry n : ℕ) (s : Station)
    → (events_handled max_retry (sta_got_ip ∷ disconnects n) s).connects
      ≡ s.connects + min n max_retry
unfolding event_handler
retries_after_got_ip max_retry n s =
    omega (arith, retries_from max_retry n (record s { retry_num = 0 }) (omega arith))
