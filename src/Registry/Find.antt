-- ===== src/Registry/Find.antt =====
-- The search by name of components/monet_core/src/service_registry.c.
use Prim.Native.String.{String}
use text.Mathlib.Text.{◌==◌ as str_eq}
use text.Mathlib.TextEquality.{eq_iff}
use esp_mo_net.Base.{
  [], ◌∷◌, refl, zero, suc, List, Option, ℕ, ◌≡◌, true, some, none, get_elem?, ◌↔◌, ◌⊎◌, false, ◌<◌,
  All, set, arith, ◌≢◌, length, if◌then◌else◌, Bool-cases, inl, ap, inr, ◌++◌,
}
use esp_mo_net.Service.{find, ServiceEntry, ServiceDesc, is_named, is_some}
use mathlib.Core.Option

abbrev pub descs : List ServiceEntry → List ServiceDesc
descs [] = []
descs (e ∷ es) = e.desc ∷ descs es

pub is_named_iff : (name : String) (n : Option String) → (is_named name n ≡ true) ↔ (n ≡ some name)
is_named_iff name none = ground arith
is_named_iff name (some n) = ground (arith, eq_iff n name)

-- What stands behind the first entry of a list.
abbrev Behind : String → ServiceEntry → List ServiceEntry → ℕ → ServiceEntry → Type 0
Behind name x xs i e =
    ((x.desc.name ≡ some name) × (i ≡ 0) × (e ≡ x))
    ⊎ ((x.desc.name ≢ some name) × (j : ℕ) × (i ≡ suc j) × (find name xs ≡ some (j, e)))

find_cases :
    (name : String) (x : ServiceEntry) (xs : List ServiceEntry) (i : ℕ) (e : ServiceEntry)
    → find name (x ∷ xs) ≡ some (i, e)
    → Behind name x xs i e
unfolding find
find_cases name x xs i e h = elim (Bool-cases (is_named name x.desc.name)) [
  | inl hit ↦ inl ((is_named_iff name x.desc.name).0 hit, cc (rw hit at h), cc (rw hit at h))
  | inr miss ↦
      let (j, at, found) = behind (find name xs) refl (rw miss at h) in
      inr (other miss, j, at, found)
]
  where
    other : is_named name x.desc.name ≡ false → x.desc.name ≢ some name
    other miss at = cc ((is_named_iff name x.desc.name).1 at)

    behind :
        (o : Option (ℕ × ServiceEntry))
        → find name xs ≡ o
        → Option.map {B = ℕ × ServiceEntry} (λ found. (suc found.0, found.1)) o ≡ some (i, e)
        → (j : ℕ) × (i ≡ suc j) × (find name xs ≡ some (j, e))
    behind none f g = cc
    behind (some (j, y)) f g = (j, cc, cc)

-- What is found stands at its index, under that name.
pub find_found :
    (name : String) (es : List ServiceEntry) (i : ℕ) (e : ServiceEntry)
    → find name es ≡ some (i, e)
    → (get_elem? es i ≡ some e) × (e.desc.name ≡ some name) × (i < length es)
unfolding find
find_found name [] i e h = absurd (cc)
find_found name (x ∷ xs) i e h = elim (find_cases name x xs i e h) [
  | inl (named, at, same) ↦ rw (at, same) (refl, named, omega arith)
  | inr (other, j, at, found) ↦
      let (elem, named, lt) = find_found name xs j e found in rw at (elem, named, omega arith)
]

-- What is not found has another name everywhere.
pub find-none :
    (name : String) (es : List ServiceEntry)
    → find name es ≡ none
    → All (λ d. d.name ≢ some name) (descs es)
unfolding find
find-none name [] h = tt
find-none name (x ∷ xs) h = ground (arith, is_named_iff name x.desc.name, find-none name xs)

module _ (name : String) (e e' : ServiceEntry) (same : e'.desc ≡ e.desc) where
  -- An entry that is written over by one of the same descriptor is found in its place.
  pub find-set :
      (n : String) (es : List ServiceEntry) (i : ℕ)
      → find name es ≡ some (i, e)
      → find n (set es i e') ≡ (if str_eq name n then some (i, e') else find n es)
  unfolding find
  find-set n [] i h = absurd (cc)
  find-set n (x ∷ xs) i h = elim (find_cases name x xs i e h) [
    | inl (named, at, is_x) ↦ rw at (ground (arith, eq_iff name n))
    | inr (other, j, at, found) ↦
        rw at (ground (arith, find-set n xs j found, eq_iff name n, is_named_iff n x.desc.name))
  ]

pub descs-set :
    (e e' : ServiceEntry) (es : List ServiceEntry) (i : ℕ)
    → e'.desc ≡ e.desc
    → get_elem? es i ≡ some e
    → descs (set es i e') ≡ descs es
descs-set e e' [] i same h = refl
descs-set e e' (x ∷ xs) zero same h = ground arith
descs-set e e' (x ∷ xs) (suc i) same h = ap (◌∷◌ x.desc) (descs-set e e' xs i same h)

-- An entry added at the end is found under its name, if no other was.
pub find-append :
    (name : String) (es : List ServiceEntry) (e : ServiceEntry)
    → e.desc.name ≡ some name
    → is_some (find name (es ++ e ∷ [])) ≡ true
unfolding find
find-append name [] e named = ground (arith, is_named_iff name e.desc.name)
find-append name (x ∷ xs) e named = ground (arith, find-append name xs e named)
