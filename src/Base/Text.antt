-- ===== src/Base/Text.antt =====
-- C strings: bytes up to the first NUL.
use Prim.Native.Nat.{ℕ, suc}
use mathlib.Core.Path.{◌≡◌, refl}
use mathlib.Core.Logic.{◌≢◌}
use mathlib.Core.Option.{Option, none, some}
use mathlib.Core.List.{List, [], ◌∷◌, ◌++◌}
use native.Mathlib.Omega.{arith}
use mathlib.Core.Logic.{inl, inr}
use esp_mo_net.Base.Tests.{Bool-cases}
use esp_mo_net.Base.Tests.{◌==◌, if◌then◌else◌}
use esp_mo_net.Base.Lists.{All, take}
use mathlib.Core.Option

-- The string that starts a buffer; `none` where no NUL stands in it, so that a C function that
-- looks for the end reads past the buffer.
unfoldable pub c_string : List ℕ → Option (List ℕ)
c_string [] = none
c_string (b ∷ bs) = if b == 0 then some [] else Option.map (◌∷◌ b) (c_string bs)

-- The characters of a C string are not NUL.
abbrev pub IsText : List ℕ → Type 0
IsText = All (λ c. c ≢ 0)

-- A text followed by a NUL is read back, whatever follows.
pub c_string-append : (s rest : List ℕ) → IsText s → c_string (s ++ 0 ∷ rest) ≡ some s
unfolding c_string
c_string-append [] rest h = refl
c_string-append (c ∷ s) rest h = ground (arith, c_string-append s rest h.1)

pub c_string-IsText : (s : List ℕ) → IsText s → c_string s ≡ none
unfolding c_string
c_string-IsText [] h = refl
c_string-IsText (c ∷ s) h = ground (arith, c_string-IsText s h.1)

pub take-IsText : (n : ℕ) (s : List ℕ) → IsText s → IsText (take n s)
take-IsText ℕ.zero s h = tt
take-IsText (suc n) [] h = tt
take-IsText (suc n) (c ∷ s) h = (h.0, take-IsText n s h.1)

-- A string that ends within the first `n` bytes is the string of the buffer.
pub c_string-take : (n : ℕ) (bs s : List ℕ) → c_string (take n bs) ≡ some s → c_string bs ≡ some s
unfolding c_string
c_string-take ℕ.zero bs s h = cc
c_string-take (suc n) [] s h = h
c_string-take (suc n) (b ∷ bs) s h = elim (Bool-cases (b == 0)) [
  | inl z ↦ rw z (rw z at h)
  | inr nz ↦ rw nz (under (c_string (take n bs)) (λ t. c_string-take n bs t) refl (rw nz at h))
]
  where
    under :
        (o : Option (List ℕ))
        → ((t : List ℕ) → o ≡ some t → c_string bs ≡ some t)
        → c_string (take n bs) ≡ o
        → Option.map (◌∷◌ b) o ≡ some s
        → Option.map (◌∷◌ b) (c_string bs) ≡ some s
    under none ih e g = cc
    under (some t) ih e g = rw (ih t refl) g
