-- ===== src/Wifi/History.antt =====
-- What the state of components/monet_hal/src/wifi_hal.c says of the events that came.
use esp_mo_net.Base.{
  true, false, [], ◌∷◌, ◌++◌, refl, zero, suc, Bool, List, ℕ, min, ◌≡◌, ◌≤◌, ◌+◌, arith, ap, ◌&&◌,
  ◌∙◌, ◌*◌, replicate, leb, Bool-cases, ◌↔◌, ltb, inl, inr,
}
use esp_mo_net.Wifi.{
  sta_start, sta_disconnected, got_ip, wifi_other, WifiEvent, Wifi, wifi_event_handler, run, init,
  max_retry, is_connected,
}

-- What an observer notes: whether an address ever came, and how many disconnections came since, or
-- since the start.
pub record Seen : Type 0 where
  pub address : Bool
  pub lost : ℕ

abbrev pub nothing_seen : Seen
nothing_seen = record { address = false; lost = 0 }

abbrev observe : Seen → WifiEvent → Seen
observe s sta_start = s
observe s sta_disconnected = record s { lost = s.lost + 1 }
observe s got_ip = record { address = true; lost = 0 }
observe s wifi_other = s

abbrev pub observe_all : Seen → List WifiEvent → Seen
observe_all s [] = s
observe_all s (event ∷ events) = observe_all (observe s event) events

-- The handler's state, as a function of what was observed.
abbrev pub state_of : Seen → Wifi
state_of s = record {
  retry_num = min max_retry s.lost;
  connected_bit = s.address && leb s.lost max_retry;
}

step_lem :
    (s : Seen) (event : WifiEvent)
    → (wifi_event_handler (state_of s) event).0 ≡ state_of (observe s event)
unfolding wifi_event_handler
step_lem s sta_start = refl
step_lem s sta_disconnected = ground arith
step_lem s got_ip = refl
step_lem s wifi_other = refl

run_lem :
    (s : Seen) (events : List WifiEvent)
    → (run (state_of s) events).0 ≡ state_of (observe_all s events)
unfolding run
run_lem s [] = refl
run_lem s (event ∷ events) =
    ap (λ w. (run w events).0) (step_lem s event) ∙ run_lem (observe s event) events

-- After any events from the start, the retry counter is the number of disconnections since the
-- last address, or since the start, at most 100, and the connected bit is set exactly when an
-- address came and at most 100 disconnections came since.
pub state_by_history :
    (events : List WifiEvent) → (run init events).0 ≡ state_of (observe_all nothing_seen events)
state_by_history events = run_lem nothing_seen events

-- How often an event occurs.
abbrev pub starts : List WifiEvent → ℕ
starts [] = 0
starts (sta_start ∷ events) = 1 + starts events
starts (sta_disconnected ∷ events) = starts events
starts (got_ip ∷ events) = starts events
starts (wifi_other ∷ events) = starts events

abbrev pub addresses : List WifiEvent → ℕ
addresses [] = 0
addresses (sta_start ∷ events) = addresses events
addresses (sta_disconnected ∷ events) = addresses events
addresses (got_ip ∷ events) = 1 + addresses events
addresses (wifi_other ∷ events) = addresses events

-- Over any events, the calls of esp_wifi_connect and the retries used before are at most the
-- number of starts and 100 for each address and once more. The retry counter is at most 100
-- before.
connects_bounded :
    (w : Wifi) (events : List WifiEvent)
    → w.retry_num ≤ max_retry
    → (run w events).1 + w.retry_num ≤ starts events + max_retry * (addresses events + 1)
unfolding run wifi_event_handler
connects_bounded w [] h = omega arith
connects_bounded w (sta_start ∷ events) h = omega (arith, connects_bounded w events h)
connects_bounded w (sta_disconnected ∷ events) h = elim (Bool-cases (ltb w.retry_num max_retry)) [
  | inl again ↦ rw again (
      omega
        (arith, connects_bounded (record w { retry_num = w.retry_num + 1 }) events (ground arith)))
  | inr enough ↦
      rw enough (omega (arith, connects_bounded (record w { connected_bit = false }) events h))
]
connects_bounded w (got_ip ∷ events) h =
    omega (
      arith,
      connects_bounded (record { retry_num = 0; connected_bit = true }) events (omega arith),
    )
connects_bounded w (wifi_other ∷ events) h = omega (arith, connects_bounded w events h)

run-append : (w : Wifi) (xs ys : List WifiEvent) → (run w (xs ++ ys)).0 ≡ (run (run w xs).0 ys).0
unfolding run
run-append w [] ys = refl
run-append w (x ∷ xs) ys = run-append (wifi_event_handler w x).0 xs ys

observe_lost :
    (s : Seen) (n : ℕ)
    → observe_all s (replicate n sta_disconnected) ≡ record s { lost = s.lost + n }
observe_lost s zero = let e : s.lost + 0 ≡ s.lost = omega arith in rw e refl
observe_lost s (suc n) =
    let e : s.lost + 1 + n ≡ s.lost + suc n = omega arith in
    observe_lost (record s { lost = s.lost + 1 }) n ∙ ap (λ k. record s { lost = k }) e

-- After any events, once an address came, the connected bit is still set after n disconnections in
-- a row exactly when n is at most 100.
pub bit_outlives_link :
    (w : Wifi) (events : List WifiEvent) (n : ℕ)
    → (is_connected (run w (events ++ (got_ip ∷ replicate n sta_disconnected))).0 ≡ true)
      ↔ (n ≤ max_retry)
unfolding run wifi_event_handler
bit_outlives_link w events n =
    let fresh : Seen = record { address = true; lost = 0 } in
    let ends =
      run-append w events (got_ip ∷ replicate n sta_disconnected)
      ∙ run_lem fresh (replicate n sta_disconnected)
      ∙ ap state_of (observe_lost fresh n) in
    rw ends (ground arith)
