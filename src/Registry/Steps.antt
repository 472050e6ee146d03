-- ===== src/Registry/Steps.antt =====
-- service_registry_start_all (components/monet_core/src/service_registry.c), one service at a time.
use esp_mo_net.Base.{
  suc, false, refl, none, some, false, List, ℕ, Option, ◌≡◌, set, ◌≢◌, ◌==◌, arith, ◌∙◌, ap,
  get_elem?, length, suc, ◌+◌,
}
use Prim.Native.String.{String}
use esp_mo_net.Registry.{
  State, start, start_task, start_subscriber, subscribed, started, start_if_disabled,
  subscriber_task, start_all, start_from,
}
use esp_mo_net.Service.{ServiceEntry, subscriber, running, disabled, find, task_of}
use esp_mo_net.Rtos.{Rtos, TaskArg}
use esp_mo_net.Registry.Ample.{IsAmple}
use esp_mo_net.Bus.{Bus}
use mathlib.Core.Option

module _ (os : Rtos) where
  one_start :
      (n i : ℕ) (st st' : State os) (e : ServiceEntry)
      → get_elem? st.entries i ≡ some e
      → start_if_disabled os st (some e) ≡ some st'
      → start_from os (suc n) i st ≡ start_from os n (i + 1) st'
  unfolding start_from
  one_start n i st st' e at_i starts = rw (at_i, starts) refl

  start_from_zero : (i : ℕ) (st : State os) → start_from os 0 i st ≡ some st
  unfolding start_from
  start_from_zero i st = refl

  pub three_starts :
      (s s₁ s₂ s₃ : State os) (a b c : ServiceEntry)
      → length s.entries ≡ 3
      → get_elem? s.entries 0 ≡ some a
      → get_elem? s₁.entries 1 ≡ some b
      → get_elem? s₂.entries 2 ≡ some c
      → start_if_disabled os s (some a) ≡ some s₁
      → start_if_disabled os s₁ (some b) ≡ some s₂
      → start_if_disabled os s₂ (some c) ≡ some s₃
      → start_all os s ≡ some s₃
  unfolding start_all
  three_starts s s₁ s₂ s₃ a b c three a₀ b₁ c₂ r₁ r₂ r₃ =
      ap (λ n. start_from os n 0 s) three
      ∙ one_start 2 0 s s₁ a a₀ r₁
      ∙ one_start 1 1 s₁ s₂ b b₁ r₂
      ∙ one_start 0 2 s₂ s₃ c c₂ r₃
      ∙ start_from_zero 3 s₃

module _ (os : Rtos) (ample : IsAmple os) where
  -- An entry after its start.
  abbrev pub started_entry : ServiceEntry → ℕ → ServiceEntry
  started_entry e h = record e { handle = h; state = running }

  -- A start of entry `i` that leaves the bus as said.
  abbrev StartsWith : State os → ℕ → ServiceEntry → Bus → Option (State os) → Type 0
  StartsWith st i e bus r =
      (st' : State os) × (h : ℕ) × (r ≡ some st')
      × (st'.entries ≡ set st.entries i (started_entry e h))
      × (st'.bus ≡ bus)

  started-StartsWith :
      (st st₁ : State os) (i : ℕ) (e : ServiceEntry) (c : Option ℕ × os.World)
      → st₁.entries ≡ st.entries
      → c.0 ≢ none
      → StartsWith st i e st₁.bus (Option.map (λ r. r.1) (some (started os st₁ i e c)))
  started-StartsWith st st₁ i e (none, w) same made = absurd (made refl)
  started-StartsWith st st₁ i e (some h, w) same made = (
    record st₁ { entries = set st₁.entries i (started_entry e h); world = w },
    h,
    refl,
    rw same,
    refl,
  )

  pub plain_start :
      (st : State os) (name : String) (i : ℕ) (e : ServiceEntry)
      → find name st.entries ≡ some (i, e)
      → e.state ≡ disabled
      → e.desc.name ≡ some name
      → e.desc.topics ≡ none
      → e.desc.task_fn ≢ 0
      → StartsWith st i e st.bus (start_if_disabled os st (some e))
  unfolding start start_task
  plain_start st name i e found idle named topics task =
      let nz : (e.desc.task_fn == 0) ≡ false = ground (arith, task) in
      simp (named, found, idle, topics, nz)
        (started-StartsWith st st i e
          (os.task_create st.world (task_of e.desc e.desc.task_fn TaskArg.null)) refl
          (ample.task_made st.world (task_of e.desc e.desc.task_fn TaskArg.null)))

  pub subscriber_start :
      (st : State os) (name : String) (i : ℕ) (e : ServiceEntry) (topics : List ℕ)
      → find name st.entries ≡ some (i, e)
      → e.state ≡ disabled
      → e.desc.name ≡ some name
      → e.desc.topics ≡ some topics
      → e.desc.role ≡ subscriber
      → StartsWith st i e (subscribed os st topics).bus (start_if_disabled os st (some e))
  unfolding start start_subscriber
  subscriber_start st name i e topics found idle named routes role =
      simp (named, found, idle, routes, role, ample.room st.world)
        (started-StartsWith st (subscribed os st topics) i e
          (os.task_create (subscribed os st topics).world (subscriber_task os st e.desc)) refl
          (ample.task_made (subscribed os st topics).world (subscriber_task os st e.desc)))
