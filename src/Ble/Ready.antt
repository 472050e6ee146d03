-- ===== src/Ble/Ready.antt =====
-- What `ble_service_is_connected` (components/service/src/ble_service.c) knows of the link to a client,
-- over the histories of events.
use esp_mo_net.Base.{
  [], ◌∷◌, refl, zero, suc, none, some, ℕ, List, if◌then◌else◌, Option, ◌≢◌, Bool, ◌>>=◌, ◌≡◌,
  false, true, Bool-cases, inl, inr, ap, ◌==◌, arith,
}
use esp_mo_net.Ble.Profile.{
  disconnect, other, Event, Server, connect, Call, reg, read_char, write_char, exec_write, create,
  add_char, add_char_descr, init, RawMacros,
}
use esp_mo_net.Ble.Prepare.{Memory}
use esp_mo_net.Ble.Handlers.{
  note_interface, GapEvent, gatts_event_handler, gap_event_handler, call_handlers, handler_a,
  handler_b, shared_events, own_calls_a, own_calls_b, adv_config_after, concerns, is_connected,
}
use esp_mo_net.Ble.Links.{is_link, forget, ServerFollows, call_handlers-Follows}

-- What reaches the service: an event of the GATT server with its interface, or one of GAP.
pub data Input : Type 0 where
  gatts : (gatts_if : ℕ) → Event → Input
  gap : GapEvent → Input

-- The callbacks, one input after the other.
unfoldable pub run : RawMacros → Memory → Server → List Input → Option Server
run raw mem s [] = some s
run raw mem s (gatts gatts_if event ∷ inputs) =
    gatts_event_handler raw mem gatts_if s event >>= λ (s', calls). run raw mem s' inputs
run raw mem s (gap event ∷ inputs) = run raw mem (gap_event_handler raw s event).0 inputs

-- A history without its links.
abbrev pub without_links : List Input → List Input
without_links [] = []
without_links (gatts gatts_if event ∷ inputs) =
    let rest = without_links inputs in if is_link event then rest else gatts gatts_if event ∷ rest
without_links (gap event ∷ inputs) = gap event ∷ without_links inputs

-- The stack numbers no connection 0xFFFF.
abbrev IsNumbered : Event → Type 0
IsNumbered (connect conn) = conn ≢ 0xFFFF
IsNumbered event = Unit {0}

abbrev AllNumbered : List Input → Type 0
AllNumbered [] = Unit {0}
AllNumbered (gatts gatts_if event ∷ inputs) = IsNumbered event × AllNumbered inputs
AllNumbered (gap event ∷ inputs) = AllNumbered inputs

gatts_event_handler-Follows :
    (raw : RawMacros) (mem : Memory) (g : ℕ) (s : Server) (event : Event)
    → is_link event ≡ false
    → ServerFollows s.profile_a.conn_id
        (gatts_event_handler raw mem g s event)
        (gatts_event_handler raw mem g (forget s) event)
unfolding gatts_event_handler note_interface
gatts_event_handler-Follows raw mem g s (reg false app) k = (refl, refl)
gatts_event_handler-Follows raw mem g s (reg true zero) k =
    call_handlers-Follows raw mem g (record s { profile_a = record s.profile_a { gatts_if = g } })
      (reg true zero) k
gatts_event_handler-Follows raw mem g s (reg true (suc zero)) k =
    call_handlers-Follows raw mem g (record s { profile_b = record s.profile_b { gatts_if = g } })
      (reg true (suc zero)) k
gatts_event_handler-Follows raw mem g s (reg true (suc (suc app))) k = refl
gatts_event_handler-Follows raw mem g s (read_char conn trans handle) k =
    call_handlers-Follows raw mem g s (read_char conn trans handle) k
gatts_event_handler-Follows raw mem g s (write_char p) k =
    call_handlers-Follows raw mem g s (write_char p) k
gatts_event_handler-Follows raw mem g s (exec_write conn trans execute) k =
    call_handlers-Follows raw mem g s (exec_write conn trans execute) k
gatts_event_handler-Follows raw mem g s (create service) k =
    call_handlers-Follows raw mem g s (create service) k
gatts_event_handler-Follows raw mem g s (add_char handle) k =
    call_handlers-Follows raw mem g s (add_char handle) k
gatts_event_handler-Follows raw mem g s (add_char_descr handle) k =
    call_handlers-Follows raw mem g s (add_char_descr handle) k
gatts_event_handler-Follows raw mem g s (connect conn) k = absurd (cc)
gatts_event_handler-Follows raw mem g s disconnect k = absurd (cc)
gatts_event_handler-Follows raw mem g s other k = call_handlers-Follows raw mem g s other k

-- A link changes nothing but the connection that is noted.
abbrev Linked : Server → Option (Server × List Call) → Type 0
Linked s none = ⊥
Linked s (some (s', calls)) = (forget s' ≡ forget s) × (s'.profile_a.conn_id ≢ 0xFFFF)

link-Linked :
    (raw : RawMacros) (mem : Memory) (g : ℕ) (s : Server) (event : Event)
    → is_link event ≡ true
    → IsNumbered event
    → s.profile_a.conn_id ≢ 0xFFFF
    → Linked s (gatts_event_handler raw mem g s event)
unfolding gatts_event_handler note_interface call_handlers handler_a handler_b shared_events
    own_calls_a own_calls_b adv_config_after
link-Linked raw mem g s (connect conn) k n v = elim (Bool-cases (concerns g s.profile_a)) [
  | inl a ↦ elim (Bool-cases (concerns g s.profile_b)) [
    | inl b ↦ rw (a, b) (refl, n)
    | inr b ↦ rw (a, b) (refl, n)
  ]
  | inr a ↦ elim (Bool-cases (concerns g s.profile_b)) [
    | inl b ↦ rw (a, b) (refl, v)
    | inr b ↦ rw (a, b) (refl, v)
  ]
]
link-Linked raw mem g s disconnect k n v = elim (Bool-cases (concerns g s.profile_a)) [
  | inl a ↦ elim (Bool-cases (concerns g s.profile_b)) [
    | inl b ↦ rw (a, b) (refl, v)
    | inr b ↦ rw (a, b) (refl, v)
  ]
  | inr a ↦ elim (Bool-cases (concerns g s.profile_b)) [
    | inl b ↦ rw (a, b) (refl, v)
    | inr b ↦ rw (a, b) (refl, v)
  ]
]
link-Linked raw mem g s event k n v = absurd (cc)

is_connected-forget :
    (s : Server) → s.profile_a.conn_id ≢ 0xFFFF → is_connected s ≡ is_connected (forget s)
unfolding is_connected
is_connected-forget s v =
    let e : (s.profile_a.conn_id == 0xFFFF) ≡ false = ground arith in rw e refl

abbrev pub ready : Option Server → Option Bool
ready o = o >>= λ s. some (is_connected s)

ready_forgets :
    (raw : RawMacros) (mem : Memory) (s : Server) (inputs : List Input)
    → AllNumbered inputs
    → s.profile_a.conn_id ≢ 0xFFFF
    → ready (run raw mem s inputs) ≡ ready (run raw mem (forget s) (without_links inputs))
unfolding run gap_event_handler
ready_forgets raw mem s [] n v = ap some (is_connected-forget s v)
ready_forgets raw mem s (gap event ∷ inputs) n v =
    ready_forgets raw mem (gap_event_handler raw s event).0 inputs n v
ready_forgets raw mem s (gatts g event ∷ inputs) (n, ns) v = elim (Bool-cases (is_link event)) [
  | inl link ↦ rw link (
      linked (gatts_event_handler raw mem g s event) (link-Linked raw mem g s event link n v)
        (λ s' v'. ready_forgets raw mem s' inputs ns v'))
  | inr kept ↦ rw kept (
      followed (gatts_event_handler raw mem g s event)
        (gatts_event_handler raw mem g (forget s) event)
        (gatts_event_handler-Follows raw mem g s event kept)
        (λ s' v'. ready_forgets raw mem s' inputs ns v'))
]
  where
    next : Server × List Call → Option Server
    next (s', calls) = run raw mem s' inputs

    next' : Server × List Call → Option Server
    next' (s', calls) = run raw mem s' (without_links inputs)

    Agrees : Type 0
    Agrees =
        (s' : Server)
        → s'.profile_a.conn_id ≢ 0xFFFF
        → ready (run raw mem s' inputs) ≡ ready (run raw mem (forget s') (without_links inputs))

    linked :
        (o : Option (Server × List Call))
        → Linked s o
        → Agrees
        → ready (o >>= next) ≡ ready (run raw mem (forget s) (without_links inputs))
    linked none impossible agree = elim impossible [ ]
    linked (some (s', calls)) (same, v') agree = rw (← same) (agree s' v')

    followed :
        (o o' : Option (Server × List Call))
        → ServerFollows s.profile_a.conn_id o o'
        → Agrees
        → ready (o >>= next) ≡ ready (o' >>= next')
    followed none o' f agree = rw f refl
    followed (some (s', calls)) o' (f, same) agree = rw f (agree s' (rw same v))

-- Whatever history of GATT and GAP events comes from the start, ble_service_is_connected answers
-- at its end what it answers at the end of the same history with every connection and
-- disconnection left out; no connection has the number 0xFFFF.
pub ready_ignores_links :
    (raw : RawMacros) (mem : Memory) (inputs : List Input)
    → AllNumbered inputs
    → ready (run raw mem init inputs) ≡ ready (run raw mem init (without_links inputs))
ready_ignores_links raw mem inputs n = ready_forgets raw mem init inputs n (omega arith)
