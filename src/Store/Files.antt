-- ===== src/Store/Files.antt =====
-- Lists of files with distinct names (server/src/storage/file_store.c).
use mathlib.Core.Path.{subst}
use esp_mo_net.Base.{
  [], ◌∷◌, refl, List, ℕ, All, ◌≡◌, ◌≢◌, ◌⊎◌, inl, Bool-cases, arith, inr, ◌==◌, ◌+◌, false, true,
  leb, ap, sym,
}
use esp_mo_net.Store.{File, remove, sizes, sort, insert}

abbrev pub Distinct : List File → Type 0
Distinct [] = Unit {0}
Distinct (f ∷ fs) = All (λ g. g.name ≢ f.name) fs × Distinct fs

-- A file stands in a list.
abbrev pub Has : List File → File → Type 0
Has [] f = ⊥
Has (g ∷ gs) f = (f ≡ g) ⊎ Has gs f

All-Has : (P : File → Type 0) (fs : List File) (f : File) → All P fs → Has fs f → P f
All-Has P [] f h m = elim m [ ]
All-Has P (g ∷ gs) f h (inl e) = subst P (sym e) h.0
All-Has P (g ∷ gs) f h (inr m) = All-Has P gs f h.1 m

pub All-remove : (P : File → Type 0) (n : ℕ) (fs : List File) → All P fs → All P (remove n fs)
All-remove P n [] h = tt
All-remove P n (f ∷ fs) h = elim (Bool-cases (f.name == n)) [
  | inl same ↦ simp same (All-remove P n fs h.1)
  | inr other ↦ simp other (h.0, All-remove P n fs h.1)
]

pub remove-Distinct : (n : ℕ) (fs : List File) → Distinct fs → Distinct (remove n fs)
remove-Distinct n [] d = tt
remove-Distinct n (f ∷ fs) d = elim (Bool-cases (f.name == n)) [
  | inl same ↦ simp same (remove-Distinct n fs d.1)
  | inr other ↦ simp other (All-remove (λ g. g.name ≢ f.name) n fs d.0, remove-Distinct n fs d.1)
]

-- A name that no file has is no loss.
pub remove_fresh : (n : ℕ) (fs : List File) → All (λ g. g.name ≢ n) fs → remove n fs ≡ fs
remove_fresh n [] h = refl
remove_fresh n (f ∷ fs) h =
    let other : (f.name == n) ≡ false = ground arith in
    simp other (ap (◌∷◌ f) (remove_fresh n fs h.1))

pub sizes-remove :
    (fs : List File) (f : File)
    → Distinct fs
    → Has fs f
    → sizes (remove f.name fs) + f.size ≡ sizes fs
sizes-remove [] f d m = elim m [ ]
sizes-remove (g ∷ gs) f d (inl e) =
    let same : (g.name == f.name) ≡ true = ground (arith, ap (λ x. x.name) e) in
    let rest : remove f.name gs ≡ gs =
      remove_fresh f.name gs (subst (λ x. All (λ y. y.name ≢ x.name) gs) (sym e) d.0) in
    simp (same, rest) (omega (arith, ap (λ x. x.size) e))
sizes-remove (g ∷ gs) f d (inr m) =
    let other : (g.name == f.name) ≡ false =
      ground (arith, All-Has (λ x. x.name ≢ g.name) gs f d.0 m) in
    simp other (omega (arith, sizes-remove gs f d.1 m))

pub Has-remove : (fs : List File) (n : ℕ) (g : File) → g.name ≢ n → Has fs g → Has (remove n fs) g
Has-remove [] n g apart m = m
Has-remove (f ∷ fs) n g apart (inl e) =
    let other : (f.name == n) ≡ false = ground (arith, ap (λ x. x.name) e) in simp other (inl e)
Has-remove (f ∷ fs) n g apart (inr m) = elim (Bool-cases (f.name == n)) [
  | inl same ↦ simp same (Has-remove fs n g apart m)
  | inr other ↦ simp other (inr (Has-remove fs n g apart m))
]

sizes-insert : (f : File) (gs : List File) → sizes (insert f gs) ≡ f.size + sizes gs
sizes-insert f [] = refl
sizes-insert f (g ∷ gs) = ground (arith, sizes-insert f gs)

pub sizes-sort : (fs : List File) → sizes (sort fs) ≡ sizes fs
sizes-sort [] = refl
sizes-sort (f ∷ fs) = omega (arith, sizes-insert f (sort fs), sizes-sort fs)

All-insert : (P : File → Type 0) (f : File) (gs : List File) → P f → All P gs → All P (insert f gs)
All-insert P f [] p h = (p, tt)
All-insert P f (g ∷ gs) p h = elim (Bool-cases (leb f.mtime g.mtime)) [
  | inl first ↦ simp first (p, h)
  | inr later ↦ simp later (h.0, All-insert P f gs p h.1)
]

pub All-sort : (P : File → Type 0) (fs : List File) → All P fs → All P (sort fs)
All-sort P [] h = tt
All-sort P (f ∷ fs) h = All-insert P f (sort fs) h.0 (All-sort P fs h.1)

insert-Distinct :
    (f : File) (gs : List File)
    → All (λ g. g.name ≢ f.name) gs
    → Distinct gs
    → Distinct (insert f gs)
insert-Distinct f [] h d = (tt, tt)
insert-Distinct f (g ∷ gs) h d = elim (Bool-cases (leb f.mtime g.mtime)) [
  | inl first ↦ simp first (h, d)
  | inr later ↦
      simp later (
        All-insert (λ x. x.name ≢ g.name) f gs (λ e. h.0 (sym e)) d.0,
        insert-Distinct f gs h.1 d.1,
      )
]

pub sort-Distinct : (fs : List File) → Distinct fs → Distinct (sort fs)
sort-Distinct [] d = tt
sort-Distinct (f ∷ fs) d =
    insert-Distinct f (sort fs) (All-sort (λ g. g.name ≢ f.name) fs d.0) (sort-Distinct fs d.1)

All-weaken : (f : File) (gs hs : List File) → All (Has gs) hs → All (Has (f ∷ gs)) hs
All-weaken f gs [] h = tt
All-weaken f gs (x ∷ hs) h = (inr h.0, All-weaken f gs hs h.1)

-- Every file stands in its own list.
pub All-self : (fs : List File) → All (Has fs) fs
All-self [] = tt
All-self (f ∷ fs) = (inl refl, All-weaken f fs fs (All-self fs))
