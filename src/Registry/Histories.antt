-- ===== src/Registry/Histories.antt =====
-- The calls of components/monet_core/src/service_registry.c one after the other, and what a stop leaves behind.
use Prim.Native.String.{String}
use esp_mo_net.Base.{
  [], ◌∷◌, none, some, refl, zero, suc, Ensures, Ensures-bind, Ensures-some, Option, List, Bool, ℕ,
  length, ◌≡◌, get_elem?, ◌>>=◌, if◌then◌else◌, false, true, ◌+◌, Bool-cases, ap, inl, inr,
}
use esp_mo_net.Registry.{State, start, stop, restart, start_all, start_from, start_if_disabled}
use esp_mo_net.Service.{ServiceDesc, register, find, running, ServiceEntry, is_running}
use esp_mo_net.Registry.Invariant.{IsValid, IsValid-empty, register-IsValid}
use esp_mo_net.Registry.Stop.{start-IsValid, stop-IsValid, valid_stop_leaks}
use esp_mo_net.Rtos.{Rtos}
use mathlib.Core.Option

-- A call of the registry that can change it.
pub data Op : Type 0 where
  register_op : Option ServiceDesc → Op
  start_op stop_op restart_op : String → Op
  start_all_op : Op

module _ (os : Rtos) where
  unfoldable pub step : State os → Op → Option (State os)
  step st (register_op desc) = some (record st { entries = register desc st.entries })
  step st (start_op name) = start os st name >>= λ (passed, st'). some st'
  step st (stop_op name) = some (stop os st name).1
  step st (restart_op name) = restart os st name >>= λ (passed, st'). some st'
  step st start_all_op = start_all os st

  -- A history of calls; `none` is a fault on the way.
  unfoldable pub run : State os → List Op → Option (State os)
  unfolding step
  run st [] = some st
  run st (op ∷ ops) = step st op >>= λ st'. run st' ops

  abbrev Valid : State os → Type 0
  Valid st = IsValid st.entries

  started-Valid :
      (st : State os) (name : String) → Valid st → Ensures (λ r. Valid r.1) (start os st name)
  started-Valid st name v = by_result (start os st name) refl
    where
      by_result : (o : Option (Bool × State os)) → start os st name ≡ o → Ensures (λ r. Valid r.1) o
      by_result none e = tt
      by_result (some (passed, st')) e = start-IsValid os st name v e

  restart-Valid :
      (st : State os) (name : String) → Valid st → Ensures (λ r. Valid r.1) (restart os st name)
  unfolding restart
  restart-Valid st name v =
      by_flag (stop os st name).0 (stop os st name).1 (stop-IsValid os st name v)
    where
      by_flag :
          (stopped : Bool) (st' : State os)
          → Valid st'
          → Ensures (λ r. Valid r.1) (if stopped then start os st' name else some (false, st'))
      by_flag true st' v' = started-Valid st' name v'
      by_flag false st' v' = v'

  start_if_disabled-Valid :
      (st : State os) (o : Option ServiceEntry)
      → Valid st
      → Ensures Valid (start_if_disabled os st o)
  start_if_disabled-Valid st none v = v
  start_if_disabled-Valid st (some e) v = by_name e.desc.name
    where
      by_name :
          (o : Option String)
          → Ensures Valid (elim o [
            | none ↦ none
            | some name ↦
                if is_running e.state then some st else Option.map (λ r. r.1) (start os st name)
          ])
      by_name none = tt
      by_name (some name) = elim (Bool-cases (is_running e.state)) [
        | inl runs ↦ rw runs v
        | inr idle ↦ rw idle (mapped (start os st name) (started-Valid st name v))
      ]
        where
          mapped :
              (o : Option (Bool × State os))
              → Ensures (λ r. Valid r.1) o
              → Ensures Valid (Option.map (λ r. r.1) o)
          mapped none h = tt
          mapped (some r) h = h

  start_from-Valid : (n i : ℕ) (st : State os) → Valid st → Ensures Valid (start_from os n i st)
  unfolding start_from
  start_from-Valid zero i st v = v
  start_from-Valid (suc n) i st v =
      Ensures-bind Valid Valid _ (start_if_disabled os st (get_elem? st.entries i))
        (start_if_disabled-Valid st (get_elem? st.entries i) v)
        (λ st' v'. start_from-Valid n (i + 1) st' v')

  step-Valid : (st : State os) (op : Op) → Valid st → Ensures Valid (step st op)
  unfolding step start_all
  step-Valid st (register_op desc) v = register-IsValid desc st.entries v
  step-Valid st (start_op name) v =
      Ensures-bind (λ r. Valid r.1) Valid _ (start os st name) (started-Valid st name v) (λ r h. h)
  step-Valid st (stop_op name) v = stop-IsValid os st name v
  step-Valid st (restart_op name) v =
      Ensures-bind (λ r. Valid r.1) Valid _ (restart os st name) (restart-Valid st name v)
        (λ r h. h)
  step-Valid st start_all_op v = start_from-Valid (length st.entries) 0 st v

  run-Valid : (st : State os) (ops : List Op) → Valid st → Ensures Valid (run st ops)
  unfolding run
  run-Valid st [] v = v
  run-Valid st (op ∷ ops) v =
      Ensures-bind Valid Valid _ (step st op) (step-Valid st op v) (λ st' v'. run-Valid st' ops v')

-- After any history of registrations, starts, stops and restarts from an empty registry, without a
-- fault on the way, a stop of a running service passes and deletes its task and nothing else: the
-- bus keeps the subscriptions of the service's queue, and no queue is deleted.
pub stop_leaks :
    (os : Rtos) (boot : State os) (ops : List Op) (st : State os) (name : String) (i : ℕ)
    (e : ServiceEntry)
    → boot.entries ≡ []
    → run os boot ops ≡ some st
    → find name st.entries ≡ some (i, e)
    → e.state ≡ running
    → ((stop os st name).0 ≡ true)
      × ((stop os st name).1.bus ≡ st.bus)
      × ((stop os st name).1.world ≡ os.task_delete st.world e.handle)
stop_leaks os boot ops st name i e empty reached at runs =
    let v : IsValid st.entries =
      Ensures-some (Valid os) (run os boot ops) (run-Valid os boot ops (rw empty IsValid-empty))
        reached in
    let (passed, left) = valid_stop_leaks os st name i e v at runs in
    (passed, ap (λ s. s.bus) left, ap (λ s. s.world) left)
