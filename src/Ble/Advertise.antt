-- ===== src/Ble/Advertise.antt =====
-- When components/service/src/ble_service.c starts advertising: gap_event_handler against the parts of
-- the advertising data that are set.
use esp_mo_net.Base.{
  [], ◌∷◌, ◌++◌, refl, List, Bool, false, true, ◌||◌, ◌≡◌, ◌&&◌, not, arith, inl, inr,
  if◌then◌else◌, ◌⊎◌, ℕ, Ensures, ◌∙◌,
}
use esp_mo_net.Ble.Profile.{Server, Call, RawMacros, reg}
use esp_mo_net.Ble.Handlers.{
  adv_data_set, scan_rsp_data_set, adv_data_raw_set, scan_rsp_data_raw_set, gap_event_handler,
  GapEvent, is_adv_set, is_scan_rsp_set, handler_a, shared_events, adv_config_after,
}
use esp_mo_net.Ble.Prepare.{Memory}

-- The callback, one event after the other.
unfoldable pub gap_run : RawMacros → Server → List GapEvent → Server × List Call
gap_run raw s [] = (s, [])
gap_run raw s (event ∷ events) =
    let (s₁, calls) = gap_event_handler raw s event in
    let (s₂, more) = gap_run raw s₁ events in (s₂, calls ++ more)

-- Whether one of the events says that the advertising data, or the scan response data, of a kind are set.
abbrev pub sets_adv : Bool → List GapEvent → Bool
sets_adv kind [] = false
sets_adv kind (event ∷ events) = is_adv_set kind event || sets_adv kind events

abbrev pub sets_scan_rsp : Bool → List GapEvent → Bool
sets_scan_rsp kind [] = false
sets_scan_rsp kind (event ∷ events) = is_scan_rsp_set kind event || sets_scan_rsp kind events

-- Both macros choose the same kind of data.
abbrev pub same_kind : RawMacros → Bool
same_kind raw = if raw.data_is_raw then raw.events_are_raw else not raw.events_are_raw

-- The stack answers data of a kind with the events of that kind alone.
abbrev pub Answers : Bool → List GapEvent → Type 0
Answers kind events =
    (sets_adv (not kind) events ≡ false) × (sets_scan_rsp (not kind) events ≡ false)

abbrev pub null {ℓ} : {A : Type ℓ} → List A → Bool
null [] = true
null (x ∷ xs) = false

-- The part of the registration that waits for the advertising data.
abbrev with_pending : Server → Bool → Bool → Server
with_pending s a r = record s { adv_config_done = record { adv_pending = a; scan_rsp_pending = r } }

-- What an event of GAP is, of the three that the callback tells apart.
event_cases :
    (kind : Bool) (event : GapEvent)
    → ((is_adv_set kind event ≡ true) × (is_scan_rsp_set kind event ≡ false))
      ⊎ ((is_adv_set kind event ≡ false) × (is_scan_rsp_set kind event ≡ true))
      ⊎ ((is_adv_set kind event ≡ false) × (is_scan_rsp_set kind event ≡ false))
event_cases true adv_data_raw_set = inl (refl, refl)
event_cases false adv_data_set = inl (refl, refl)
event_cases true scan_rsp_data_raw_set = inr (inl (refl, refl))
event_cases false scan_rsp_data_set = inr (inl (refl, refl))
event_cases kind event = inr (inr (refl, refl))

gap_run_lem :
    (raw : RawMacros) (s : Server) (a r : Bool) (events : List GapEvent)
    → (a || r) ≡ true
    → null (gap_run raw (with_pending s a r) events).1 ≡ (
        (a && not (sets_adv raw.events_are_raw events))
        || (r && not (sets_scan_rsp raw.events_are_raw events)))
unfolding gap_run gap_event_handler
gap_run_lem raw s a r [] h = ground arith
gap_run_lem raw s true true (event ∷ events) h = elim (event_cases raw.events_are_raw event) [
  | inl (x, y) ↦ rw (x, y) (gap_run_lem raw s false true events refl)
  | inr (inl (x, y)) ↦ rw (x, y) (ground (arith, gap_run_lem raw s true false events refl))
  | inr (inr (x, y)) ↦ rw (x, y) (gap_run_lem raw s true true events refl)
]
gap_run_lem raw s true false (event ∷ events) h = elim (event_cases raw.events_are_raw event) [
  | inl (x, y) ↦ rw x refl
  | inr (inl (x, y)) ↦ rw (x, y) (gap_run_lem raw s true false events refl)
  | inr (inr (x, y)) ↦ rw (x, y) (gap_run_lem raw s true false events refl)
]
gap_run_lem raw s false true (event ∷ events) h = elim (event_cases raw.events_are_raw event) [
  | inl (x, y) ↦ rw (x, y) (gap_run_lem raw s false true events refl)
  | inr (inl (x, y)) ↦ rw (x, y) refl
  | inr (inr (x, y)) ↦ rw (x, y) (gap_run_lem raw s false true events refl)
]
gap_run_lem raw s false false (event ∷ events) h = absurd (cc)

not_both : (x y : Bool) → (not x || not y) ≡ not (x && y)
not_both true y = refl
not_both false y = refl

-- The events of one kind never complete the data of the other.
both_kinds :
    (kind handled : Bool) (events : List GapEvent)
    → Answers kind events
    → (not (sets_adv handled events) || not (sets_scan_rsp handled events))
      ≡ not (
          (if kind then handled else not handled)
          && (sets_adv kind events && sets_scan_rsp kind events))
both_kinds true true events h = not_both (sets_adv true events) (sets_scan_rsp true events)
both_kinds false false events h = not_both (sets_adv false events) (sets_scan_rsp false events)
both_kinds true false events (a, r) = rw a refl
both_kinds false true events (a, r) = rw a refl

-- After profile A is registered, the callbacks of GAP start advertising exactly when the macro of
-- the data and the macro of the events choose the same kind of data and both the advertising data
-- and the scan response data were set, in any order and among any other callbacks. The stack
-- answers with the events of the kind of the data.
pub advertising_waits :
    (raw : RawMacros) (mem : Memory) (g : ℕ) (s : Server) (app : ℕ) (events : List GapEvent)
    → Answers raw.data_is_raw events
    → Ensures
        (λ (s', calls).
          null (gap_run raw s' events).1
          ≡ not (
              same_kind raw
              && (sets_adv raw.data_is_raw events && sets_scan_rsp raw.data_is_raw events)))
        (handler_a raw mem g s (reg true app))
unfolding handler_a shared_events adv_config_after
advertising_waits raw mem g s app events answers =
    gap_run_lem raw s true true events refl
    ∙ both_kinds raw.data_is_raw raw.events_are_raw events answers
