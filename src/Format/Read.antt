-- ===== src/Format/Read.antt =====
-- Readers of printed text: a literal, a signed number.
use esp_mo_net.Base.{
  [], ◌∷◌, ◌++◌, refl, zero, suc, none, some, true, false, List, ℕ, Option, ◌≡◌, ◌<◌, if◌then◌else◌,
  ◌==◌, ◌^◌, arith, Bool-cases, ◌-◌, ltb, inl, inr, ◌+◌, ◌%◌, ◌/◌,
}
use esp_mo_net.Format.{digits, decimal_i32, decimal_u32}
use esp_mo_net.Format.Digits.{scan, digits-append, scan-digits}

-- The rest of a text behind a literal.
unfoldable pub strip : List ℕ → List ℕ → Option (List ℕ)
strip [] s = some s
strip (c ∷ p) [] = none
strip (c ∷ p) (d ∷ s) = let rest = strip p s in if c == d then rest else none

pub strip-append : (p s : List ℕ) → strip p (p ++ s) ≡ some s
unfolding strip
strip-append [] s = refl
strip-append (c ∷ p) s = let e : (c == c) ≡ true = ground arith in rw e (strip-append p s)

-- A signed number as its 32-bit pattern.
unfoldable pub scan_i32 : List ℕ → ℕ × List ℕ
scan_i32 [] = (0, [])
scan_i32 (c ∷ s) =
    if c == b'-' then (let (n, rest) = scan s 0 in (2 ^ 32 - n, rest)) else scan (c ∷ s) 0

-- A text whose first character is no digit ends a number.
abbrev pub EndsNumber : List ℕ → Type 0
EndsNumber s = (n : ℕ) → scan s n ≡ (n, s)

digits-unsigned :
    (k n : ℕ) (out : List ℕ) → scan_i32 (digits (suc k) n out) ≡ scan (digits (suc k) n out) 0
unfolding scan_i32 digits
digits-unsigned zero n out = elim (Bool-cases (ltb n 10)) [
  | inl e ↦ rw e (not_minus (b'0' + n) out (omega arith))
  | inr e ↦ rw e (not_minus (b'0' + n % 10) out (omega arith))
]
  where
    not_minus : (c : ℕ) (s : List ℕ) → b'-' < c → scan_i32 (c ∷ s) ≡ scan (c ∷ s) 0
    not_minus c s h = let e : (c == b'-') ≡ false = ground arith in rw e
digits-unsigned (suc k) n out = elim (Bool-cases (ltb n 10)) [
  | inl e ↦ rw e (let f : ((b'0' + n) == b'-') ≡ false = ground arith in rw f)
  | inr e ↦ rw e (digits-unsigned k (n / 10) ((b'0' + n % 10) ∷ out))
]

pub scan-decimal_u32 :
    (n : ℕ) (s : List ℕ) → n < 2 ^ 32 → EndsNumber s → scan (decimal_u32 n ++ s) 0 ≡ (n, s)
scan-decimal_u32 n s h ends = rw (digits-append 10 n [] s, scan-digits 9 n s (omega arith), ends n)

-- Every 32-bit value is read back from its signed print.
pub scan_i32-decimal_i32 :
    (v : ℕ) (s : List ℕ) → v < 2 ^ 32 → EndsNumber s → scan_i32 (decimal_i32 v ++ s) ≡ (v, s)
unfolding decimal_i32 scan_i32
scan_i32-decimal_i32 v s h ends = elim (Bool-cases (ltb v (2 ^ 31))) [
  | inl e ↦
      rw
        (e, digits-append 10 v [] s, digits-unsigned 9 v s, scan-digits 9 v s (omega arith), ends v)
  | inr e ↦
      let back : 2 ^ 32 - (2 ^ 32 - v) ≡ v = omega (arith, h) in
      rw (
        e,
        digits-append 10 (2 ^ 32 - v) [] s,
        scan-digits 9 (2 ^ 32 - v) s (omega arith),
        ends (2 ^ 32 - v),
        back,
      )
]
