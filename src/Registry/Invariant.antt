-- ===== src/Registry/Invariant.antt =====
-- What holds of the registry (components/monet_core/src/service_registry.c) between two calls.
use Prim.Native.String.{String}
use esp_mo_net.Base.{
  [], ◌∷◌, ◌++◌, refl, List, ◌≢◌, All, Option, none, length, All-append, some, ℕ, ◌⊎◌, ◌≤◌, ◌≡◌,
  sym, get_elem?, ap, ◌<◌, set, arith, length-set, length-append, All-set, Bool-cases, ◌==◌, ◌&&◌,
  inl, inr, leb, Option-cases,
}
use esp_mo_net.Rtos.{null}
use esp_mo_net.Service.{
  ServiceDesc, register, ServiceEntry, max_services, find, fresh_entry, register_named,
}
use esp_mo_net.Registry.Find.{descs, descs-set, find-none, find-append}

-- A descriptor that `service_registry_register` lets in.
abbrev pub IsDesc : ServiceDesc → Type 0
IsDesc d = (d.name ≢ none) × ((d.task_fn ≢ 0) ⊎ (d.sink_cb ≢ 0))

-- No two descriptors have one name.
abbrev pub Distinct : List ServiceDesc → Type 0
Distinct [] = Unit {0}
Distinct (d ∷ ds) = All (λ x. x.name ≢ d.name) ds × Distinct ds

pub record IsValid (es : List ServiceEntry) : Type 0 where
  pub bounded : length es ≤ max_services
  pub allowed : All IsDesc (descs es)
  pub distinct : Distinct (descs es)
  -- No entry ever knows the context of its task.
  pub no_args : All (λ e. e.task_arg ≡ null) es

-- The registry as the program starts.
pub IsValid-empty : IsValid []
IsValid-empty = ground arith

descs-append : (xs ys : List ServiceEntry) → descs (xs ++ ys) ≡ descs xs ++ descs ys
descs-append [] ys = refl
descs-append (x ∷ xs) ys = ap (◌∷◌ x.desc) (descs-append xs ys)

Distinct-append :
    (ds : List ServiceDesc) (d : ServiceDesc)
    → All (λ x. x.name ≢ d.name) ds
    → Distinct ds
    → Distinct (ds ++ d ∷ [])
Distinct-append [] d f h = (tt, tt)
Distinct-append (x ∷ ds) d f h = (
  All-append (λ y. y.name ≢ x.name) ds (d ∷ []) h.0 ((λ e. f.0 (sym e)), tt),
  Distinct-append ds d f.1 h.1,
)

-- A registration, accepted or refused, keeps a valid registry valid: at most 16 entries, each with
-- a name and something to run, no name twice, and no entry with a task's context.
pub register-IsValid :
    (desc : Option ServiceDesc) (es : List ServiceEntry) → IsValid es → IsValid (register desc es)
unfolding register
register-IsValid none es v = v
register-IsValid (some d) es v = by_name d.name refl
  where
    added :
        (n : String)
        → d.name ≡ some n
        → (d.task_fn ≢ 0) ⊎ (d.sink_cb ≢ 0)
        → length es < max_services
        → find n es ≡ none
        → IsValid (es ++ fresh_entry d ∷ [])
    added n e runs free absent = record {
      bounded = omega (arith, length-append {0} es (fresh_entry d ∷ []));
      allowed =
          rw (descs-append es (fresh_entry d ∷ []))
            (All-append IsDesc (descs es) (d ∷ []) v.allowed (((λ z. cc), runs), tt));
      distinct =
          rw (descs-append es (fresh_entry d ∷ []))
            (Distinct-append (descs es) d (rw e (find-none n es absent)) v.distinct);
      no_args = All-append (λ x. x.task_arg ≡ null) es (fresh_entry d ∷ []) v.no_args (refl, tt);
    }

    by_name :
        (o : Option String)
        → d.name ≡ o
        → IsValid (elim o [ none ↦ es | some name ↦ register_named d name es ])
    by_name none e = v
    by_name (some n) e = elim (Bool-cases (d.task_fn == 0 && d.sink_cb == 0)) [
      | inl idle ↦ rw idle v
      | inr runs ↦ elim (Bool-cases (leb max_services (length es))) [
        | inl full ↦ rw (runs, full) v
        | inr free ↦ elim (Option-cases (find n es)) [
          | inl absent ↦ rw (runs, free, absent) (added n e (ground arith) (ground arith) absent)
          | inr (found, there) ↦ rw (runs, free, there) v
        ]
      ]
    ]

-- An entry that is written over by one of the same descriptor and no context.
pub set-IsValid :
    (es : List ServiceEntry) (i : ℕ) (e e' : ServiceEntry)
    → get_elem? es i ≡ some e
    → e'.desc ≡ e.desc
    → e'.task_arg ≡ null
    → IsValid es
    → IsValid (set es i e')
set-IsValid es i e e' at same no_arg v = record {
  bounded = omega (arith, length-set {0} es i e');
  allowed = rw (descs-set e e' es i same at) v.allowed;
  distinct = rw (descs-set e e' es i same at) v.distinct;
  no_args = All-set (λ x. x.task_arg ≡ null) es i e' no_arg v.no_args;
}

-- A service that is registered once more changes nothing, whether the first registration was
-- accepted or not.
register_twice :
    (desc : Option ServiceDesc) (es : List ServiceEntry)
    → register desc (register desc es) ≡ register desc es
unfolding register
register_twice none es = refl
register_twice (some d) es = by_name d.name refl
  where
    add : Option String → List ServiceEntry → List ServiceEntry
    add o xs = elim o [ none ↦ xs | some name ↦ register_named d name xs ]

    by_name : (o : Option String) → d.name ≡ o → add o (add o es) ≡ add o es
    by_name none e = refl
    by_name (some n) e = ground (arith, find-append n es (fresh_entry d) e)
