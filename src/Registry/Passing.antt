-- ===== src/Registry/Passing.antt =====
-- Which starts pass (components/monet_core/src/service_registry.c, service_registry_start).
use Prim.Native.String.{String}
use esp_mo_net.Base.{
  [], ◌∷◌, refl, zero, suc, none, some, ◌≡◌, List, ℕ, ◌≢◌, Option, ◌⊎◌, Bool, ap, ◌==◌, get_elem?,
  true, set, false, inl, arith, inr, ◌∙◌, All-get_elem?, Bool-cases, length,
}
use esp_mo_net.Rtos.{Rtos, null}
use esp_mo_net.Registry.{
  State, start_task, start_subscriber, start, subscribed, started, subscriber_task, start_by_role,
  start_found,
}
use esp_mo_net.Service.{
  find, ServiceDesc, subscriber, ServiceEntry, disabled, running, task_of, is_subscriber,
  is_running,
}
use esp_mo_net.Registry.Ample.{IsAmple}
use esp_mo_net.Registry.Invariant.{Distinct}
use esp_mo_net.Registry.Find.{descs, is_named_iff}

-- A service with a task of its own, or with topics and the role of a subscriber.
abbrev pub CanStart : ServiceDesc → Type 0
CanStart d = ((d.role ≡ subscriber) × (d.topics ≢ none)) ⊎ (d.task_fn ≢ 0)

pub length-descs : (es : List ServiceEntry) → length (descs es) ≡ length es
length-descs [] = refl
length-descs (e ∷ es) = ap suc (length-descs es)

pub descs_at :
    (es : List ServiceEntry) (i : ℕ) (e : ServiceEntry)
    → get_elem? es i ≡ some e
    → get_elem? (descs es) i ≡ some e.desc
descs_at [] i e h = absurd (cc)
descs_at (y ∷ ys) zero e h = ground arith
descs_at (y ∷ ys) (suc i) e h = descs_at ys i e h

-- The distinct names lead a search to the entry that has the name.
pub find-Distinct :
    (name : String) (es : List ServiceEntry) (i : ℕ) (e : ServiceEntry)
    → Distinct (descs es)
    → get_elem? es i ≡ some e
    → e.desc.name ≡ some name
    → find name es ≡ some (i, e)
unfolding find
find-Distinct name [] i e d at named = absurd (cc)
find-Distinct name (x ∷ xs) zero e d at named = ground (arith, is_named_iff name x.desc.name)
find-Distinct name (x ∷ xs) (suc i) e d at named = ground (
  arith,
  find-Distinct name xs i e d.1 at named,
  is_named_iff name x.desc.name,
  All-get_elem? (λ y. y.name ≢ x.desc.name) (descs xs) i (descs_at xs i e at) d.0,
)

module _ (os : Rtos) (ample : IsAmple os) where
  -- A start that ends with the entry running.
  abbrev pub Passes : State os → ℕ → ServiceEntry → Option (Bool × State os) → Type 0
  Passes st i e r =
      (st' : State os) × (h : ℕ) × (r ≡ some (true, st'))
      × (st'.entries ≡ set st.entries i (record e { handle = h; state = running }))

  started-Passes :
      (st st₁ : State os) (i : ℕ) (e : ServiceEntry) (c : Option ℕ × os.World)
      → st₁.entries ≡ st.entries
      → c.0 ≢ none
      → Passes st i e (some (started os st₁ i e c))
  started-Passes st st₁ i e (none, w) same made = absurd (made refl)
  started-Passes st st₁ i e (some h, w) same made = (
    (started os st₁ i e (some h, w)).1,
    h,
    refl,
    ap (λ es. set es i (record e { handle = h; state = running })) same,
  )

  start_task-Passes :
      (st : State os) (i : ℕ) (e : ServiceEntry)
      → e.desc.task_fn ≢ 0
      → Passes st i e (some (start_task os st i e))
  unfolding start_task
  start_task-Passes st i e task =
      let own : (e.desc.task_fn == 0) ≡ false = ground arith in
      rw own (
        started-Passes st st i e (os.task_create st.world (task_of e.desc e.desc.task_fn null)) refl
          (ample.task_made _ _))

  start_subscriber-Passes :
      (st : State os) (i : ℕ) (e : ServiceEntry) (topics : List ℕ)
      → Passes st i e (start_subscriber os st i e topics)
  unfolding start_subscriber
  start_subscriber-Passes st i e topics =
      let st₁ : State os = subscribed os st topics in
      rw (ample.room st.world) (
        started-Passes st st₁ i e (os.task_create st₁.world (subscriber_task os st e.desc)) refl
          (ample.task_made _ _))

  start_by_role-Passes :
      (st : State os) (i : ℕ) (e : ServiceEntry) (o : Option (List ℕ))
      → e.desc.topics ≡ o
      → CanStart e.desc
      → Passes st i e (start_by_role os st i e o)
  start_by_role-Passes st i e none at (inl (role, topics)) = absurd (topics at)
  start_by_role-Passes st i e none at (inr task) = start_task-Passes st i e task
  start_by_role-Passes st i e (some ts) at (inl (role, topics)) =
      rw (ap is_subscriber role) (start_subscriber-Passes st i e ts)
  start_by_role-Passes st i e (some ts) at (inr task) =
      elim (Bool-cases (is_subscriber e.desc.role)) [
        | inl sub ↦ rw sub (start_subscriber-Passes st i e ts)
        | inr other ↦ rw other (start_task-Passes st i e task)
      ]

  pub start-Passes :
      (st : State os) (name : String) (i : ℕ) (e : ServiceEntry)
      → find name st.entries ≡ some (i, e)
      → e.state ≡ disabled
      → CanStart e.desc
      → Passes st i e (start os st name)
  unfolding start
  start-Passes st name i e at idle can =
      let (st', h, passes, written) = start_by_role-Passes st i e e.desc.topics refl can in
      (st', h, ap (start_found os st) at ∙ rw (ap is_running idle) passes, written)
