-- ===== src/Registry/Stop.antt =====
-- The invariant across starts and stops, and what a stop leaves behind
-- (components/monet_core/src/service_registry.c).
use Prim.Native.String.{String}
use esp_mo_net.Base.{
  refl, none, some, Bool, ℕ, Option, ◌≡◌, Ensures-some, true, set, All-get_elem?, inl, Bool-cases,
  inr, arith,
}
use esp_mo_net.Rtos.{Rtos, null}
use esp_mo_net.Registry.{State, stop, start, stop_found}
use esp_mo_net.Service.{ServiceEntry, find, running, disabled, is_running}
use esp_mo_net.Registry.Lifecycle.{Starts, start-Starts}
use esp_mo_net.Registry.Find.{find_found}
use esp_mo_net.Registry.Invariant.{set-IsValid, IsValid}

-- A start keeps the invariant of the entries, whatever it returns.
pub start-IsValid :
    (os : Rtos) (st : State os) (name : String) {r : Bool} {st' : State os}
    → IsValid st.entries
    → start os st name ≡ some (r, st')
    → IsValid st'.entries
start-IsValid os st name v h =
    elim (Ensures-some (Starts os st name) (start os st name) (start-Starts os st name) h) [
      | inl (_, kept) ↦ rw kept v
      | inr (_, i, e, handle, at, _, written) ↦
          let (elem, _, _) = find_found name st.entries i e at in
          rw written (
            set-IsValid st.entries i e (record e { handle = handle; state = running }) elem refl
              (All-get_elem? (λ x. x.task_arg ≡ null) st.entries i elem v.no_args) v)
    ]

-- In a valid registry, a stop of a running service passes and deletes its task and nothing else:
-- the bus keeps the subscriptions of the service's queue, and no queue is deleted.
pub valid_stop_leaks :
    (os : Rtos) (st : State os) (name : String) (i : ℕ) (e : ServiceEntry)
    → IsValid st.entries
    → find name st.entries ≡ some (i, e)
    → e.state ≡ running
    → (stop os st name).0 ≡ true
      × (stop os st name).1 ≡ record st {
        entries = set st.entries i (record e { handle = 0; state = disabled; task_arg = null });
        world = os.task_delete st.world e.handle;
      }
unfolding stop
valid_stop_leaks os st name i e v at runs =
    let (elem, _, _) = find_found name st.entries i e at in
    let no_arg : e.task_arg ≡ null =
      All-get_elem? (λ x. x.task_arg ≡ null) st.entries i elem v.no_args in
    rw at (ground arith)

pub stop-IsValid :
    (os : Rtos) (st : State os) (name : String)
    → IsValid st.entries
    → IsValid (stop os st name).1.entries
unfolding stop
stop-IsValid os st name v = found (find name st.entries) refl
  where
    found :
        (o : Option (ℕ × ServiceEntry))
        → find name st.entries ≡ o
        → IsValid (stop_found os st o).1.entries
    found none at = v
    found (some (i, e)) at =
        let (elem, _, _) = find_found name st.entries i e at in
        let no_arg : e.task_arg ≡ null =
          All-get_elem? (λ x. x.task_arg ≡ null) st.entries i elem v.no_args in
        elim (Bool-cases (is_running e.state)) [
          | inr idle ↦ rw idle v
          | inl runs ↦ rw runs (set-IsValid st.entries i e _ elem refl (rw no_arg) v)
        ]
