-- ===== src/Registry/Startup.antt =====
-- `service_registry_start_all` (components/monet_core/src/service_registry.c): every service that can
-- be started runs afterwards.
use mathlib.Core.Option
use native.Mathlib.Numerals.{add-one}
use Prim.Native.String.{String}
use esp_mo_net.Base.{
  refl, zero, suc, none, some, ◌≡◌, ℕ, Option, ap, get_elem?, inl, arith, inr, ◌∙◌, All-get_elem?,
  Bool-cases, All, ◌+◌, take, length, All-take, get_elem?-some, if◌then◌else◌, All-take-set,
  All-take-suc,
}
use esp_mo_net.Rtos.{Rtos, null}
use esp_mo_net.Registry.{State, start, start_if_disabled, start_from, start_all}
use esp_mo_net.Service.{ServiceDesc, ServiceEntry, running, is_running}
use esp_mo_net.Registry.Ample.{IsAmple}
use esp_mo_net.Registry.Invariant.{IsValid, set-IsValid, IsDesc}
use esp_mo_net.Registry.Find.{descs, descs-set}
use esp_mo_net.Registry.Passing.{
  CanStart, Passes, length-descs, descs_at, start-Passes, find-Distinct,
}

module _ (os : Rtos) (ample : IsAmple os) where
  -- What the loop has reached at index `i`.
  record UpTo (st : State os) (i : ℕ) : Type 0 where
    valid : IsValid st.entries
    can : All CanStart (descs st.entries)
    runs : All (λ e. e.state ≡ running) (take i st.entries)

  start_if_disabled-UpTo :
      (st : State os) (i : ℕ) (e : ServiceEntry)
      → get_elem? st.entries i ≡ some e
      → UpTo st i
      → (st' : State os) × (start_if_disabled os st (some e) ≡ some st')
        × UpTo st' (suc i)
        × (descs st'.entries ≡ descs st.entries)
  start_if_disabled-UpTo st i e at u = by_name e.desc.name refl
    where
      step : Option String → Option (State os)
      step o = elim o [
        | none ↦ none
        | some name ↦
            if is_running e.state then some st else Option.map (λ r. r.1) (start os st name)
      ]

      Reaches : Option (State os) → Type 0
      Reaches r =
          (st' : State os) × (r ≡ some st')
          × UpTo st' (suc i)
          × (descs st'.entries ≡ descs st.entries)

      written :
          (name : String)
          → Passes os ample st i e (start os st name)
          → Reaches (Option.map (λ r. r.1) (start os st name))
      written name (st', h, passes, set_at) =
          let e' : ServiceEntry = record e { handle = h; state = running } in
          let same : descs st'.entries ≡ descs st.entries =
            ap descs set_at ∙ descs-set e e' st.entries i refl at in
          (
            st',
            rw passes refl,
            record {
              valid = rw set_at (
                  set-IsValid st.entries i e e' at refl
                    (All-get_elem? (λ x. x.task_arg ≡ null) st.entries i at u.valid.no_args)
                    u.valid);
              can = rw same u.can;
              runs = rw set_at (All-take-set (λ x. x.state ≡ running) st.entries i e' refl u.runs);
            },
            same,
          )

      by_name : (o : Option String) → e.desc.name ≡ o → Reaches (step o)
      by_name none no_name = absurd (
          (All-get_elem? IsDesc (descs st.entries) i (descs_at st.entries i e at) u.valid.allowed).0
            no_name)
      by_name (some name) named = elim (Bool-cases (is_running e.state)) [
        | inl runs ↦ (
          st,
          rw runs refl,
          record {
            valid = u.valid;
            can = u.can;
            runs = All-take-suc (λ x. x.state ≡ running) st.entries i at (ground arith) u.runs;
          },
          refl,
        )
        | inr idle ↦ rw idle (
            written name (
              start-Passes os ample st name i e
                (find-Distinct name st.entries i e u.valid.distinct at named) (ground arith)
                (All-get_elem? CanStart (descs st.entries) i (descs_at st.entries i e at) u.can)))
      ]

  start_from-UpTo :
      (n i : ℕ) (st : State os)
      → i + n ≡ length st.entries
      → UpTo st i
      → (st' : State os) × (start_from os n i st ≡ some st')
        × All (λ e. e.state ≡ running) st'.entries
        × (descs st'.entries ≡ descs st.entries)
  unfolding start_from
  start_from-UpTo zero i st l u =
      (st, refl, All-take (λ e. e.state ≡ running) st.entries i (omega arith) u.runs, refl)
  start_from-UpTo (suc n) i st l u =
      let (e, at) = get_elem?-some st.entries i (omega arith) in
      let (st₁, steps, u₁, same₁) = start_if_disabled-UpTo st i e at u in
      let l₁ : i + 1 + n ≡ length st₁.entries = omega (
        arith,
        length-descs st₁.entries,
        length-descs st.entries,
        ap (length {A = ServiceDesc}) same₁,
      ) in
      let (st₂, rest, all, same₂) = start_from-UpTo n (i + 1) st₁ l₁ (rw add-one u₁) in
      (st₂, rw (at, steps) rest, all, same₂ ∙ same₁)

  -- Where memory suffices, the registry is valid and every registered service can be started,
  -- service_registry_start_all ends without a fault, with every service running and with the same
  -- services.
  pub start_all_runs :
      (st : State os)
      → IsValid st.entries
      → All CanStart (descs st.entries)
      → (st' : State os) × (start_all os st ≡ some st')
        × All (λ e. e.state ≡ running) st'.entries
        × (descs st'.entries ≡ descs st.entries)
  unfolding start_all
  start_all_runs st v can =
      start_from-UpTo (length st.entries) 0 st (omega arith)
        (record { valid = v; can = can; runs = tt })
