-- ===== src/Format/Size.antt =====
-- How long the conversions' texts are, and what `snprintf` leaves in a buffer that has room for them.
use mathlib.Core.List.{append_assoc}
use esp_mo_net.Base.{
  [], ◌∷◌, ◌++◌, refl, zero, suc, some, true, List, ℕ, ◌<◌, IsText, Bool-cases, length, ◌^◌, ◌≤◌,
  ltb, ◌≡◌, c_string, arith, inl, length-overwrite, take, ◌+◌, inr, take_whole, overwrite_lem,
  length-take, length-append, ◌/◌, ◌-◌, drop, ◌%◌, c_string-append, take-IsText, Bool, ◌==◌,
  if◌then◌else◌, false,
}
use esp_mo_net.Format.{digits, decimal_i32, snprintf, decimal_u32}
use esp_mo_net.Format.Digits.{digits-IsText, tenth_below}

pub length-digits :
    (rounds k n : ℕ) (out : List ℕ)
    → n < 10 ^ suc k
    → length (digits rounds n out) ≤ suc k + length out
unfolding digits
length-digits zero k n out h = omega arith
length-digits (suc rounds) zero n out h =
    let e : ltb n 10 ≡ true = ground arith in rw e (omega arith)
length-digits (suc rounds) (suc k) n out h = elim (Bool-cases (ltb n 10)) [
  | inl e ↦ rw e (omega arith)
  | inr e ↦ rw e (
      omega
        (arith, length-digits rounds k (n / 10) ((b'0' + n % 10) ∷ out) (tenth_below (suc k) n h)))
]

pub length-decimal_u32 : (n : ℕ) → n < 2 ^ 32 → length (decimal_u32 n) ≤ 10
length-decimal_u32 n h = omega (arith, length-digits 10 9 n [] (omega arith))

pub length-decimal_i32 : (v : ℕ) → v < 2 ^ 32 → length (decimal_i32 v) ≤ 11
unfolding decimal_i32
length-decimal_i32 v h = elim (Bool-cases (ltb v (2 ^ 31))) [
  | inl e ↦ rw e (omega (arith, length-decimal_u32 v h))
  | inr e ↦ rw e (omega (arith, length-digits 10 9 (2 ^ 32 - v) [] (omega arith)))
]

pub decimal_i32-IsText : (v : ℕ) → IsText (decimal_i32 v)
unfolding decimal_i32
decimal_i32-IsText v = elim (Bool-cases (ltb v (2 ^ 31))) [
  | inl e ↦ rw e (digits-IsText 10 v [] tt)
  | inr e ↦ rw e (omega arith, digits-IsText 10 (2 ^ 32 - v) [] tt)
]

pub append-IsText : (s t : List ℕ) → IsText s → IsText t → IsText (s ++ t)
append-IsText [] t hs ht = ht
append-IsText (c ∷ s) t hs ht = (hs.0, append-IsText s t hs.1 ht)

pub length-snprintf :
    (buf : List ℕ) (size : ℕ) (text : List ℕ) → length (snprintf buf size text) ≡ length buf
unfolding snprintf
length-snprintf buf zero text = refl
length-snprintf buf (suc room) text = length-overwrite (take room text ++ 0 ∷ []) buf

-- A text that fits is the buffer's string.
pub c_string-snprintf :
    (buf : List ℕ) (size : ℕ) (text : List ℕ)
    → IsText text
    → length text < size
    → size ≤ length buf
    → c_string (snprintf buf size text) ≡ some text
unfolding snprintf
c_string-snprintf buf zero text ok fits room = absurd (omega arith)
c_string-snprintf buf (suc n) text ok fits room =
    let whole : take n text ≡ text = take_whole n text (omega (arith, length-take n text)) in
    rw
      (
        whole,
        overwrite_lem (text ++ 0 ∷ []) buf (omega (arith, length-append text (0 ∷ []))),
        append_assoc text (0 ∷ []) (drop (length (text ++ 0 ∷ [])) buf),
      )
      (c_string-append text (drop (length (text ++ 0 ∷ [])) buf) ok)

-- What does not fit is cut: the string is the text's beginning.
c_string-snprintf_cut :
    (buf : List ℕ) (room : ℕ) (text : List ℕ)
    → IsText text
    → room < length buf
    → c_string (snprintf buf (suc room) text) ≡ some (take room text)
unfolding snprintf
c_string-snprintf_cut buf room text ok h =
    let s = take room text in
    rw
      (
        overwrite_lem (s ++ 0 ∷ []) buf
            (omega (arith, length-append s (0 ∷ []), length-take room text)),
        append_assoc s (0 ∷ []) (drop (length (s ++ 0 ∷ [])) buf),
      )
      (c_string-append s (drop (length (s ++ 0 ∷ [])) buf) (take-IsText room text ok))

-- Whether no character is NUL.
unfoldable pub no_nul : List ℕ → Bool
no_nul [] = true
no_nul (c ∷ s) = let rest = no_nul s in if c == 0 then false else rest

-- A text of literal characters: one test decides it.
pub no_nul-IsText : (s : List ℕ) → no_nul s ≡ true → IsText s
unfolding no_nul
no_nul-IsText [] h = tt
no_nul-IsText (c ∷ s) h = elim (Bool-cases (c == 0)) [
  | inl e ↦ absurd (ground (arith))
  | inr e ↦ (ground arith, no_nul-IsText s (rw e at h))
]
