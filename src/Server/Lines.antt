-- ===== src/Server/Lines.antt =====
-- Heads of requests made of any header lines, as server/src/router.c and its handlers read them: the blank line,
-- and the value of Content-Length.
use esp_mo_net.Base.{
  [], ◌∷◌, ◌++◌, refl, none, some, false, arith, inl, inr, Bool-cases, Option-cases, List, ◌≡◌, All,
  ℕ, ◌≢◌, ◌==◌, ◌∙◌,
}
use esp_mo_net.Server.Router.{after_blank, after_nocase, strip_nocase, lower, blank_line}
use esp_mo_net.Format.{codes}
use esp_mo_net.Format.Read.{strip}

-- Lines, each with its line end, in front of what follows.
unfoldable pub lines_before : List (List ℕ) → List ℕ → List ℕ
lines_before [] rest = rest
lines_before (line ∷ lines) rest = line ++ 13 ∷ 10 ∷ lines_before lines rest

abbrev pub crlf : List ℕ
crlf = 13 ∷ 10 ∷ []

abbrev pub needle : List ℕ
needle = codes "Content-Length:"

-- A line of a head: not empty, and without a NUL or a carriage return.
abbrev pub IsLine : List ℕ → Type 0
IsLine line = (line ≢ []) × All (λ c. (c ≢ 0) × (c ≢ 13)) line

-- A line without the name of the length in it.
abbrev pub IsOther : List ℕ → Type 0
IsOther line = IsLine line × (after_nocase needle line ≡ none)

-- Text that does not begin with a carriage return, as that behind a line does not.
abbrev Starts : List ℕ → Type 0
Starts [] = ⊥
Starts (c ∷ s) = c ≢ 13

Starts-lines : (line : List ℕ) (rest : List ℕ) → IsLine line → Starts (line ++ rest)
Starts-lines [] rest h = absurd (h.0 refl)
Starts-lines (c ∷ line) rest h = h.1.0.1

passed_by :
    (c : ℕ) (s : List ℕ)
    → (c == 0) ≡ false
    → strip blank_line (c ∷ s) ≡ none
    → after_blank (c ∷ s) ≡ after_blank s
unfolding after_blank
passed_by c s nul here = rw (nul, here) refl

no_blank : (c : ℕ) (t : List ℕ) → c ≢ 13 → strip blank_line (13 ∷ 10 ∷ c ∷ t) ≡ none
unfolding strip
no_blank c t h = let other : (13 == c) ≡ false = ground (arith, h) in rw other refl

no_blank_inside : (t : List ℕ) → strip blank_line (10 ∷ t) ≡ none
unfolding strip
no_blank_inside t = refl

-- The end of a line with more text behind it is no blank line.
line_goes_on : (t : List ℕ) → Starts t → after_blank (13 ∷ 10 ∷ t) ≡ after_blank t
line_goes_on [] h = absurd h
line_goes_on (c ∷ t) h =
    passed_by 13 (10 ∷ c ∷ t) refl (no_blank c t h)
    ∙ passed_by 10 (c ∷ t) refl (no_blank_inside (c ∷ t))

line_skipped :
    (line t : List ℕ) → All (λ c. (c ≢ 0) × (c ≢ 13)) line → after_blank (line ++ t) ≡ after_blank t
unfolding after_blank strip
line_skipped [] t h = refl
line_skipped (c ∷ line) t h =
    let nul : (c == 0) ≡ false = ground (arith, h.0) in
    let plain : (13 == c) ≡ false = ground (arith, h.0) in rw (nul, plain) (line_skipped line t h.1)

blank_found : after_blank (crlf ++ crlf) ≡ some []
unfolding after_blank strip
blank_found = refl

-- The blank line stands behind the last of the lines.
pub after_blank-lines :
    (line : List ℕ) (lines : List (List ℕ))
    → IsLine line
    → All IsLine lines
    → after_blank (lines_before (line ∷ lines) crlf) ≡ some []
unfolding lines_before
after_blank-lines line [] h hs = line_skipped line (crlf ++ crlf) h.1 ∙ blank_found
after_blank-lines line (next ∷ lines) h hs =
    line_skipped line _ h.1
    ∙ line_goes_on _ (Starts-lines next _ hs.0)
    ∙ after_blank-lines next lines hs.0 hs.1

-- A match that does not fit in a line does not go over its end.
strip_nocase_ends :
    (p s t : List ℕ)
    → All (λ c. lower c ≢ 13) p
    → strip_nocase p s ≡ none
    → strip_nocase p (s ++ 13 ∷ t) ≡ none
unfolding strip_nocase
strip_nocase_ends [] s t h e = absurd (cc)
strip_nocase_ends (c ∷ p) [] t h e =
    let other : (lower c == 13) ≡ false = ground (arith, h.0) in rw other refl
strip_nocase_ends (c ∷ p) (d ∷ s) t h e = elim (Bool-cases (lower c == lower d)) [
  | inl same ↦ rw same (strip_nocase_ends p s t h.1 (rw same at e))
  | inr other ↦ rw other refl
]

needle-All : All (λ c. lower c ≢ 13) needle
needle-All = ground arith

-- A line without the name is passed by.
pub other_line :
    (line t : List ℕ)
    → All (λ c. (c ≢ 0) × (c ≢ 13)) line
    → after_nocase needle line ≡ none
    → after_nocase needle (line ++ 13 ∷ 10 ∷ t) ≡ after_nocase needle t
unfolding after_nocase
other_line [] t h e = refl
other_line (c ∷ line) t h e =
    let nul : (c == 0) ≡ false = ground (arith, h.0) in
    elim (Option-cases (strip_nocase needle (c ∷ line))) [
      | inr (rest, found) ↦ let impossible : some rest ≡ none = rw (nul, found) at e in absurd (cc)
      | inl here ↦
          rw (nul, strip_nocase_ends needle (c ∷ line) (10 ∷ t) needle-All here)
            (other_line line t h.1 (rw (nul, here) at e))
    ]
