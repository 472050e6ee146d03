-- ===== src/Registry/Lifecycle.antt =====
-- What a start, a stop and a restart do to the registry
-- (components/monet_core/src/service_registry.c).
use Prim.Native.String.{String}
use text.Mathlib.Text.{◌==◌ as str_eq}
use esp_mo_net.Base.{
  none, some, refl, ℕ, Bool, Option, Bool-cases, List, ◌≡◌, ◌==◌, false, inl, some, ◌⊎◌, inr, true,
  ap, set, Ensures, arith, if◌then◌else◌, ◌∙◌,
}
use esp_mo_net.Rtos.{Rtos, TaskArg}
use esp_mo_net.Registry.{
  State, start_task, start_subscriber, start_by_role, started, start, start_found, subscribed,
  subscriber_task, stop, stop_found, drop_task_arg,
}
use esp_mo_net.Service.{ServiceEntry, running, find, is_subscriber, disabled, is_running}
use esp_mo_net.Registry.Find.{find-set}

module _ (os : Rtos) (st : State os) where
  -- The entry that was written over, if the start passed.
  abbrev Started : ℕ → ServiceEntry → Bool × State os → Type 0
  Started i e (r, st') =
      ((r ≡ false) × (st'.entries ≡ st.entries))
      ⊎ ((r ≡ true)
          × (h : ℕ) × (st'.entries ≡ set st.entries i (record e { handle = h; state = running })))

  started-Started :
      (i : ℕ) (e : ServiceEntry) (st₁ : State os) (created : Option ℕ × os.World)
      → st₁.entries ≡ st.entries
      → Started i e (started os st₁ i e created)
  started-Started i e st₁ (none, w) same = inl (refl, same)
  started-Started i e st₁ (some h, w) same =
      inr (refl, h, ap (λ es. set es i (record e { handle = h; state = running })) same)

  start_task-Started : (i : ℕ) (e : ServiceEntry) → Started i e (start_task os st i e)
  unfolding start_task
  start_task-Started i e = elim (Bool-cases (e.desc.task_fn == 0)) [
    | inl no_task ↦ rw no_task (inl (refl, refl))
    | inr task ↦ rw task (started-Started i e st (os.task_create st.world _) refl)
  ]

  start_subscriber-Started :
      (i : ℕ) (e : ServiceEntry) (topics : List ℕ)
      → Ensures (Started i e) (start_subscriber os st i e topics)
  unfolding start_subscriber
  start_subscriber-Started i e topics = elim (Bool-cases (os.heap_has_room st.world)) [
    | inl room ↦ rw room (
        started-Started i e (subscribed os st topics)
          (os.task_create (subscribed os st topics).world (subscriber_task os st e.desc)) refl)
    | inr short ↦ rw short tt
  ]

  start_by_role-Started :
      (i : ℕ) (e : ServiceEntry) (topics : Option (List ℕ))
      → Ensures (Started i e) (start_by_role os st i e topics)
  start_by_role-Started i e none = start_task-Started i e
  start_by_role-Started i e (some topics) = elim (Bool-cases (is_subscriber e.desc.role)) [
    | inl sub ↦ rw sub (start_subscriber-Started i e topics)
    | inr other ↦ rw other (start_task-Started i e)
  ]

  -- A start changes no entry, or makes the first entry of that name run.
  abbrev pub Starts : String → Bool × State os → Type 0
  Starts name (r, st') =
      ((r ≡ false) × (st'.entries ≡ st.entries))
      ⊎ ((r ≡ true)
          × (i : ℕ) × (e : ServiceEntry) × (h : ℕ) × (find name st.entries ≡ some (i, e))
          × (e.state ≡ disabled)
          × (st'.entries ≡ set st.entries i (record e { handle = h; state = running })))

  pub start-Starts : (name : String) → Ensures (Starts name) (start os st name)
  unfolding start
  start-Starts name = found (find name st.entries) refl
    where
      located :
          (i : ℕ) (e : ServiceEntry)
          → find name st.entries ≡ some (i, e)
          → e.state ≡ disabled
          → (o : Option (Bool × State os)) → Ensures (Started i e) o
          → Ensures (Starts name) o
      located i e at idle none h = tt
      located i e at idle (some r) (inl kept) = inl kept
      located i e at idle (some r) (inr (passed, h, written)) =
          inr (passed, i, e, h, at, idle, written)

      found :
          (o : Option (ℕ × ServiceEntry))
          → find name st.entries ≡ o
          → Ensures (Starts name) (start_found os st o)
      found none at = inl (refl, refl)
      found (some (i, e)) at = elim (Bool-cases (is_running e.state)) [
        | inl runs ↦ rw runs (inl (refl, refl))
        | inr stopped ↦ rw stopped (
            located i e at (ground arith) (start_by_role os st i e e.desc.topics)
              (start_by_role-Started i e e.desc.topics))
      ]

-- The entry of a name is written over, and no other name's entry changes.
abbrev Rewrites : List ServiceEntry → String → ℕ → ServiceEntry → List ServiceEntry → Type 0
Rewrites es name i e' es' =
    (n : String) → find n es' ≡ (if str_eq name n then some (i, e') else find n es)

-- How a start ends.
abbrev StartOutcome : (os : Rtos) → State os → String → Bool × State os → Type 0
StartOutcome os st name (r, st') =
    ((r ≡ false) × (st'.entries ≡ st.entries))
    ⊎ ((r ≡ true)
        × (i : ℕ) × (e : ServiceEntry) × (h : ℕ) × (find name st.entries ≡ some (i, e))
        × (e.state ≡ disabled)
        × Rewrites st.entries name i (record e { handle = h; state = running }) st'.entries)

-- A start that is not refused finds the first entry of that name disabled and makes it run, and no
-- other name's entry changes; a start that is refused changes no entry. The one other outcome is
-- the fault of an allocation that fails.
start_lem :
    (os : Rtos) (st : State os) (name : String)
    → Ensures (StartOutcome os st name) (start os st name)
start_lem os st name = ends (start os st name) (start-Starts os st name)
  where
    ends :
        (o : Option (Bool × State os))
        → Ensures (Starts os st name) o
        → Ensures (StartOutcome os st name) o
    ends none s = tt
    ends (some (r, st')) (inl kept) = inl kept
    ends (some (r, st')) (inr (passed, i, e, h, at, idle, written)) =
        let e' : ServiceEntry = record e { handle = h; state = running } in
        inr (
          passed,
          i,
          e,
          h,
          at,
          idle,
          λ n. ap (find n) written ∙ find-set name e e' refl n st.entries i at,
        )

-- How a stop ends.
abbrev StopOutcome : (os : Rtos) → State os → String → Bool × State os → Type 0
StopOutcome os st name (r, st') =
    ((r ≡ false) × (st' ≡ st))
    ⊎ ((r ≡ true)
        × (i : ℕ) × (e : ServiceEntry) × (a : TaskArg) × (find name st.entries ≡ some (i, e))
        × (e.state ≡ running)
        × Rewrites st.entries name i (record e { handle = 0; state = disabled; task_arg = a })
            st'.entries)

-- A stop that is not refused finds the first entry of that name running and leaves it disabled
-- with no handle, and no other name's entry changes; a stop that is refused changes nothing at
-- all.
stop_lem : (os : Rtos) (st : State os) (name : String) → StopOutcome os st name (stop os st name)
unfolding stop
stop_lem os st name = found (find name st.entries) refl
  where
    found :
        (o : Option (ℕ × ServiceEntry))
        → find name st.entries ≡ o
        → StopOutcome os st name (stop_found os st o)
    found none at = inl (refl, refl)
    found (some (i, e)) at = elim (Bool-cases (is_running e.state)) [
      | inr idle ↦ rw idle (inl (refl, refl))
      | inl runs ↦
          let a : TaskArg = (drop_task_arg os e (os.task_delete st.world e.handle)).0 in
          let e' : ServiceEntry = record e { handle = 0; state = disabled; task_arg = a } in
          rw runs
            (inr (refl, i, e, a, at, ground arith, λ n. find-set name e e' refl n st.entries i at))
    ]
