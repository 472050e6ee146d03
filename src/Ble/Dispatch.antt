-- ===== src/Ble/Dispatch.antt =====
-- components/service/src/ble_service.c, gatts_event_handler: which profile an event reaches, and where the
-- answers go.
use mathlib.Core.List.{append-nil}
use esp_mo_net.Base.{
  true, false, [], ◌++◌, refl, zero, suc, some, ℕ, Bool, ◌≡◌, List, All, Option, Ensures, ◌≢◌,
  Ensures-bind, if◌then◌else◌, All-append, ◌==◌, arith, Bool-cases, inl, Option-cases, inr,
}
use esp_mo_net.Ble.Profile.{
  disconnect, Server, Event, reg, Call, connect, gatt_if_none, char_uuid_a, char_uuid_b, RawMacros,
}
use esp_mo_net.Ble.Handlers.{
  own_calls_a, own_calls_b, handler_a, handler_b, call_handlers, note_interface,
  gatts_event_handler, concerns, shared_events,
}
use esp_mo_net.Ble.Prepare.{Memory}
use esp_mo_net.Ble.Answers.{IsAddressed, event_conn, Quiet, shared-Quiet}

-- Neither profile indicates.
abbrev IsQuiet : Server → Type 0
IsQuiet s =
    (s.profile_a.property.can_indicate ≡ false) × (s.profile_b.property.can_indicate ≡ false)

abbrev pub AnswersTo : ℕ → ℕ → Server × List Call → Type 0
AnswersTo g conn (s, calls) = IsQuiet s × All (IsAddressed g conn) calls

own_calls_a-All :
    (raw : RawMacros) (g conn : ℕ) (event : Event)
    → All (IsAddressed g conn) (own_calls_a raw g event)
unfolding own_calls_a
own_calls_a-All raw g conn (reg ok app) = elim (Bool-cases raw.data_is_raw) [
  | inl raw_data ↦ rw raw_data (tt, (tt, (tt, (tt, tt))))
  | inr plain ↦ rw plain (tt, (tt, (tt, (tt, tt))))
]
own_calls_a-All raw g conn (connect c) = (tt, tt)
own_calls_a-All raw g conn disconnect = (tt, tt)
own_calls_a-All raw g conn event = tt

own_calls_b-All : (g conn : ℕ) (event : Event) → All (IsAddressed g conn) (own_calls_b g event)
unfolding own_calls_b
own_calls_b-All g conn (reg ok app) = (tt, tt)
own_calls_b-All g conn event = tt

handler_a-AnswersTo :
    (raw : RawMacros) (mem : Memory) (g : ℕ) (s : Server) (event : Event)
    → IsQuiet s
    → Ensures (AnswersTo g (event_conn event)) (handler_a raw mem g s event)
unfolding handler_a
handler_a-AnswersTo raw mem g s event q =
    Ensures-bind (Quiet g (event_conn event)) (AnswersTo g (event_conn event)) _
      (shared_events mem char_uuid_a g s.profile_a event)
      (shared-Quiet mem char_uuid_a g s.profile_a event q.0)
      (λ (pr, calls) (k, all). (
        (k, q.1),
        All-append (IsAddressed g (event_conn event)) (own_calls_a raw g event) calls
            (own_calls_a-All raw g (event_conn event) event) all,
      ))

handler_b-AnswersTo :
    (mem : Memory) (g : ℕ) (s : Server) (event : Event)
    → IsQuiet s
    → Ensures (AnswersTo g (event_conn event)) (handler_b mem g s event)
unfolding handler_b
handler_b-AnswersTo mem g s event q =
    Ensures-bind (Quiet g (event_conn event)) (AnswersTo g (event_conn event)) _
      (shared_events mem char_uuid_b g s.profile_b event)
      (shared-Quiet mem char_uuid_b g s.profile_b event q.1)
      (λ (pr, calls) (k, all). (
        (q.0, k),
        All-append (IsAddressed g (event_conn event)) (own_calls_b g event) calls
            (own_calls_b-All g (event_conn event) event) all,
      ))

-- The loop's turn for one row.
turn-AnswersTo :
    (b : Bool) (g conn : ℕ) (s : Server) (o : Option (Server × List Call))
    → IsQuiet s
    → Ensures (AnswersTo g conn) o
    → Ensures (AnswersTo g conn) (if b then o else some (s, []))
turn-AnswersTo true g conn s o q h = h
turn-AnswersTo false g conn s o q h = (q, tt)

call_handlers-AnswersTo :
    (raw : RawMacros) (mem : Memory) (g : ℕ) (s : Server) (event : Event)
    → IsQuiet s
    → Ensures (AnswersTo g (event_conn event)) (call_handlers raw mem g s event)
unfolding call_handlers
call_handlers-AnswersTo raw mem g s event q =
    let conn = event_conn event in
    Ensures-bind (AnswersTo g conn) (AnswersTo g conn) _ _
      (turn-AnswersTo (concerns g s.profile_a) g conn s (handler_a raw mem g s event) q
        (handler_a-AnswersTo raw mem g s event q))
      (λ (s₁, calls_a) (q₁, all_a).
        Ensures-bind (AnswersTo g conn) (AnswersTo g conn) _ _
          (turn-AnswersTo (concerns g s₁.profile_b) g conn s₁ (handler_b mem g s₁ event) q₁
            (handler_b-AnswersTo mem g s₁ event q₁))
          (λ (s₂, calls_b) (q₂, all_b).
            (q₂, All-append (IsAddressed g conn) calls_a calls_b all_a all_b)))

note_interface-IsQuiet :
    (g : ℕ) (s : Server) (event : Event)
    → IsQuiet s
    → Ensures (λ r. IsQuiet r.1) (note_interface g s event)
unfolding note_interface
note_interface-IsQuiet g s (reg false app) q = q
note_interface-IsQuiet g s (reg true zero) q = q
note_interface-IsQuiet g s (reg true (suc zero)) q = q
note_interface-IsQuiet g s (reg true (suc (suc app))) q = tt
note_interface-IsQuiet g s event q = q

-- Unless the handling of an event accesses memory outside an array, every response and
-- notification it asks for goes to the event's interface and to the connection the event is about,
-- and asks for no confirmation. Neither profile has the property of indications before, and
-- neither has it afterwards.
pub answers_addressed :
    (raw : RawMacros) (mem : Memory) (g : ℕ) (s : Server) (event : Event)
    → IsQuiet s
    → Ensures (AnswersTo g (event_conn event)) (gatts_event_handler raw mem g s event)
unfolding gatts_event_handler
answers_addressed raw mem g s event q =
    Ensures-bind (λ r. IsQuiet r.1) (AnswersTo g (event_conn event)) _ (note_interface g s event)
      (note_interface-IsQuiet g s event q) (λ (goes_on, s') q'. by_flag goes_on s' q')
  where
    by_flag :
        (goes_on : Bool) (s' : Server)
        → IsQuiet s'
        → Ensures
            (AnswersTo g (event_conn event))
            (if goes_on then call_handlers raw mem g s' event else some (s', []))
    by_flag true s' q' = call_handlers-AnswersTo raw mem g s' event q'
    by_flag false s' q' = (q', tt)

-- An event that is no registration.
abbrev is_reg : Event → Bool
is_reg (reg ok app) = true
is_reg event = false

note_interface_other :
    (g : ℕ) (s : Server) (event : Event)
    → is_reg event ≡ false
    → note_interface g s event ≡ some (true, s)
unfolding note_interface
note_interface_other g s (reg ok app) k = absurd (cc)
note_interface_other g s event k = refl

-- An event that is no registration and names an interface is handled by the profile of that
-- interface alone, and by neither if no profile has it; the profiles have different interfaces.
event_reaches :
    (raw : RawMacros) (mem : Memory) (g : ℕ) (s : Server) (event : Event)
    → is_reg event ≡ false
    → g ≢ gatt_if_none
    → s.profile_a.gatts_if ≢ s.profile_b.gatts_if
    → gatts_event_handler raw mem g s event ≡ (
        if g == s.profile_a.gatts_if
        then handler_a raw mem g s event
        else if g == s.profile_b.gatts_if
        then handler_b mem g s event
        else some (s, []))
unfolding gatts_event_handler call_handlers handler_a handler_b
event_reaches raw mem g s event k some_if apart =
    let noted = note_interface_other g s event k in
    let named : (g == gatt_if_none) ≡ false = ground arith in
    elim (Bool-cases (g == s.profile_a.gatts_if)) [
      | inl a ↦
          let b : (g == s.profile_b.gatts_if) ≡ false = ground arith in
          elim (Option-cases (shared_events mem char_uuid_a g s.profile_a event)) [
            | inl fault ↦ rw (noted, named, a, fault) refl
            | inr ((pr, calls), e) ↦
                rw (noted, named, a, e, b, append-nil (own_calls_a raw g event ++ calls)) refl
          ]
      | inr a ↦ elim (Bool-cases (g == s.profile_b.gatts_if)) [
        | inr b ↦ rw (noted, named, a, b) refl
        | inl b ↦ elim (Option-cases (shared_events mem char_uuid_b g s.profile_b event)) [
          | inl fault ↦ rw (noted, named, a, b, fault) refl
          | inr ((pr, calls), e) ↦ rw (noted, named, a, b, e) refl
        ]
      ]
    ]
