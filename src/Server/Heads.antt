-- ===== src/Server/Heads.antt =====
-- Heads of requests as server/src/router.c reads them: numbers in them, the blank line, the first record.
use mathlib.Core.List.{cons-ne-nil}
use esp_mo_net.Base.{
  [], ◌∷◌, ◌++◌, refl, zero, suc, some, true, false, List, ℕ, ◌≤◌, ◌≢◌, All, Bool-cases, ◌<◌, drop,
  ltb, length, ◌≡◌, inl, ◌==◌, arith, ltb→lt, leb, ◌+◌, inr, ◌/◌, take, ◌%◌, ap, if◌then◌else◌, ◌∙◌,
  Bool,
}
use esp_mo_net.Server.Client.{silent, client_thread, serve}
use esp_mo_net.Format.{digits, decimal_u32}
use esp_mo_net.Server.Router.{
  after_blank, skip_spaces, blank_line, positive_number, router_dispatch,
}
use esp_mo_net.Format.Digits.{scan}
use esp_mo_net.Format.Read.{strip, EndsNumber}
use esp_mo_net.Server.{ssl_read}

abbrev pub IsDigit : ℕ → Type 0
IsDigit c = (b'0' ≤ c) × (c ≤ b'9')

pub digits-All : (k n : ℕ) (out : List ℕ) → All IsDigit out → All IsDigit (digits k n out)
unfolding digits
digits-All zero n out h = h
digits-All (suc k) n out h = elim (Bool-cases (ltb n 10)) [
  | inl e ↦ rw e ((omega arith, omega (arith, ltb→lt n 10 e)), h)
  | inr e ↦ rw e (digits-All k (n / 10) ((b'0' + n % 10) ∷ out) ((omega arith, omega arith), h))
]

pub after_blank-append :
    (s rest : List ℕ) → All IsDigit s → after_blank (s ++ (blank_line ++ rest)) ≡ some rest
unfolding after_blank strip
after_blank-append [] rest h = refl
after_blank-append (c ∷ s) rest h =
    let nul : (c == 0) ≡ false = ground (arith, h.0) in
    let plain : (13 == c) ≡ false = ground (arith, h.0) in
    rw (nul, plain) (after_blank-append s rest h.1)

-- A print of a number starts with a digit.
pub number_text :
    (s rest : List ℕ)
    → All IsDigit s
    → s ≢ []
    → positive_number (skip_spaces (s ++ rest)) ≡ (scan (s ++ rest) 0).0
unfolding skip_spaces
number_text [] rest h ne = absurd (ne refl)
number_text (c ∷ s) rest h ne =
    let space : (c == 32) ≡ false = ground (arith, h.0) in
    let low : leb c 13 ≡ false = ground (arith, h.0) in
    let minus : (c == b'-') ≡ false = ground (arith, h.0) in
    let plus : (c == b'+') ≡ false = ground (arith, h.0) in
    let nine : leb 9 c ≡ true = ground (arith, h.0) in rw (space, nine, low, minus, plus)

digits-nonempty : (k n : ℕ) (out : List ℕ) → out ≢ [] → digits k n out ≢ []
unfolding digits
digits-nonempty zero n out h = h
digits-nonempty (suc k) n out h = elim (Bool-cases (ltb n 10)) [
  | inl e ↦ rw e (cons-ne-nil (b'0' + n) out)
  | inr e ↦
      rw e (digits-nonempty k (n / 10) ((b'0' + n % 10) ∷ out) (cons-ne-nil (b'0' + n % 10) out))
]

pub some_digit : (n : ℕ) → decimal_u32 n ≢ []
unfolding digits
some_digit n = elim (Bool-cases (ltb n 10)) [
  | inl e ↦ rw e (cons-ne-nil (b'0' + n) [])
  | inr e ↦
      rw e (digits-nonempty 9 (n / 10) ((b'0' + n % 10) ∷ []) (cons-ne-nil (b'0' + n % 10) []))
]

pub blank_ends : EndsNumber (blank_line ++ [])
unfolding scan
blank_ends n = refl

pub length_pos : (json : List ℕ) → json ≢ [] → 0 < length json
length_pos [] h = absurd (h refl)
length_pos (b ∷ json) h = omega arith

-- A first record that fits in the buffer is the request.
pub client_serves :
    (room : Bool) (raw : List ℕ) (rs : List (List ℕ))
    → drop 4095 raw ≡ []
    → (length raw == 0) ≡ false
    → client_thread true room (raw ∷ rs) ≡ serve room raw (router_dispatch raw) rs
unfolding client_thread
client_serves room raw rs short said =
    let read : ssl_read 4095 (raw ∷ rs) ≡ (raw, rs) = ap (λ (t : List ℕ). by_rest t) short in
    ap
      (λ (got : List ℕ × List (List ℕ)).
        if length got.0 == 0 then silent else serve room got.0 (router_dispatch got.0) got.1)
      read
    ∙ rw said
  where
    by_rest : List ℕ → List ℕ × List (List ℕ)
    by_rest [] = (raw, rs)
    by_rest (b ∷ bytes) = (take 4095 raw, (b ∷ bytes) ∷ rs)
