-- ===== src/Format/Digits.antt =====
-- What a decimal print is made of, and how a reader gets the number back.
use native.Mathlib.Nat.{pow-suc}
use esp_mo_net.Base.{
  [], ◌∷◌, ◌++◌, refl, zero, suc, true, List, ℕ, ◌<◌, ◌≡◌, IsText, ◌*◌, ◌+◌, arith, Bool-cases, ◌-◌,
  ◌%◌, ◌^◌, ltb, if◌then◌else◌, ◌/◌, leb, inl, ◌&&◌, inr, ltb→lt, ◌∙◌,
}
use esp_mo_net.Format.{digits}

-- Reads digits up to the first other character.
unfoldable pub scan : List ℕ → ℕ → ℕ × List ℕ
scan [] n = (n, [])
scan (c ∷ s) n =
    let rest = scan s (n * 10 + (c - b'0')) in if leb b'0' c && leb c b'9' then rest else (n, c ∷ s)

scan_last : (n : ℕ) (out : List ℕ) → scan ((b'0' + n % 10) ∷ out) (n / 10) ≡ scan out n
unfolding scan
scan_last n out = ground arith

scan_one : (n : ℕ) (out : List ℕ) → n < 10 → scan ((b'0' + n) ∷ out) 0 ≡ scan out n
unfolding scan
scan_one n out h = ground arith

pub tenth_below : (k n : ℕ) → n < 10 ^ suc k → n / 10 < 10 ^ k
tenth_below k n h = omega (arith, pow-suc 10 k, h)

-- The rounds that are given are enough for the digits of the number.
pub scan-digits :
    (k n : ℕ) (out : List ℕ) → n < 10 ^ suc k → scan (digits (suc k) n out) 0 ≡ scan out n
unfolding digits
scan-digits zero n out h =
    let e : ltb n 10 ≡ true = ground arith in rw e (scan_one n out (omega arith))
scan-digits (suc k) n out h = elim (Bool-cases (ltb n 10)) [
  | inl e ↦ rw e (scan_one n out (omega (arith, ltb→lt n 10 e)))
  | inr e ↦
      rw e
        (scan-digits k (n / 10) ((b'0' + n % 10) ∷ out) (tenth_below (suc k) n h) ∙ scan_last n out)
]

pub digits-append :
    (rounds n : ℕ) (out s : List ℕ) → digits rounds n out ++ s ≡ digits rounds n (out ++ s)
unfolding digits
digits-append zero n out s = refl
digits-append (suc k) n out s = ground (arith, digits-append k (n / 10) ((b'0' + n % 10) ∷ out) s)

pub digits-IsText : (rounds n : ℕ) (out : List ℕ) → IsText out → IsText (digits rounds n out)
unfolding digits
digits-IsText zero n out h = h
digits-IsText (suc k) n out h = elim (Bool-cases (ltb n 10)) [
  | inl e ↦ rw e (omega arith, h)
  | inr e ↦ rw e (digits-IsText k (n / 10) ((b'0' + n % 10) ∷ out) (omega arith, h))
]
