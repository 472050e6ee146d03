-- ===== src/Server/Posts.antt =====
-- A post with a Content-Length and any other header lines, as server/src/router.c routes it.
use esp_mo_net.Base.{
  none, some, [], ◌∷◌, ◌++◌, refl, some, false, arith, ap, List, ℕ, All, All-append, ◌≡◌, ◌<◌, ◌≢◌,
  ◌∙◌, ◌^◌, length, drop, ◌≤◌, drop_whole, ◌==◌, Option, min,
}
use esp_mo_net.Server.Lines.{
  lines_before, crlf, needle, IsLine, IsOther, other_line, after_blank-lines,
}
use esp_mo_net.Server.Router.{
  after_nocase, parse_content_length, router_dispatch, handled_by, to_data, to_image, long_max,
  positive_number, skip_spaces,
}
use esp_mo_net.Server.Heads.{number_text, digits-All, some_digit, IsDigit}
use esp_mo_net.Format.{codes, decimal_u32}
use esp_mo_net.Format.Digits.{scan}
use esp_mo_net.Format.Read.{EndsNumber, scan-decimal_u32}

-- The header lines around the length, whatever the client sends there.
pub record Headers : Type 0 where
  pub before : List (List ℕ)
  pub after : List (List ℕ)
  pub before_other : All IsOther before
  pub after_lines : All IsLine after

abbrev length_line : ℕ → List ℕ
length_line len = codes "Content-Length: " ++ decimal_u32 len

abbrev all_lines : Headers → ℕ → List (List ℕ)
all_lines p len = p.before ++ length_line len ∷ p.after

-- The head of a post: its request line, its header lines and the blank line.
abbrev pub post_head : List ℕ → Headers → ℕ → List ℕ
post_head first p len = lines_before (first ∷ all_lines p len) crlf

digits_plain : (s : List ℕ) → All IsDigit s → All (λ c. (c ≢ 0) × (c ≢ 13)) s
digits_plain [] h = tt
digits_plain (c ∷ s) h = ((omega (arith, h.0), omega (arith, h.0)), digits_plain s h.1)

length_line-IsLine : (len : ℕ) → IsLine (length_line len)
length_line-IsLine len = (
  λ e. cc,
  All-append (λ c. (c ≢ 0) × (c ≢ 13)) (codes "Content-Length: ") (decimal_u32 len) (ground arith)
      (digits_plain (decimal_u32 len) (digits-All 10 len [] tt)),
)

before_lines : (ls : List (List ℕ)) → All IsOther ls → All IsLine ls
before_lines [] h = tt
before_lines (l ∷ ls) h = (h.0.0, before_lines ls h.1)

all_lines-All : (p : Headers) (len : ℕ) → All IsLine (all_lines p len)
all_lines-All p len =
    All-append IsLine p.before (length_line len ∷ p.after) (before_lines p.before p.before_other)
      (length_line-IsLine len, p.after_lines)

name_found : (t : List ℕ) → after_nocase needle (codes "Content-Length: " ++ t) ≡ some (32 ∷ t)
unfolding after_nocase
name_found t = refl

-- What stands behind the name of the length, and so the length itself.
length_found :
    (ls : List (List ℕ)) (len : ℕ) (after : List (List ℕ))
    → All IsOther ls
    → after_nocase needle (lines_before (ls ++ length_line len ∷ after) crlf)
      ≡ some (32 ∷ decimal_u32 len ++ 13 ∷ 10 ∷ lines_before after crlf)
unfolding lines_before
length_found [] len after h = name_found (decimal_u32 len ++ 13 ∷ 10 ∷ lines_before after crlf)
length_found (l ∷ ls) len after h = other_line l _ h.0.0.1 h.0.1 ∙ length_found ls len after h.1

line_ends : (t : List ℕ) → EndsNumber (13 ∷ t)
unfolding scan
line_ends t n = refl

length_read :
    (hdr t : List ℕ) (len : ℕ)
    → after_nocase needle hdr ≡ some (32 ∷ decimal_u32 len ++ 13 ∷ t)
    → len < 2 ^ 32
    → parse_content_length hdr ≡ len
unfolding parse_content_length
length_read hdr t len found fits =
    ap read_value found
    ∙ rw
        (
          number_text (decimal_u32 len) (13 ∷ t) (digits-All 10 len [] tt) (some_digit len),
          scan-decimal_u32 len (13 ∷ t) fits (line_ends t),
        )
        (omega (arith, fits))
  where
    read_value : Option (List ℕ) → ℕ
    read_value o = elim o [
      | none ↦ 0
      | some value ↦ min long_max (positive_number (skip_spaces value))
    ]

-- The length is read, wherever its line stands.
pub head_length :
    (first : List ℕ) (p : Headers) (len : ℕ)
    → IsOther first
    → len < 2 ^ 32
    → parse_content_length (post_head first p len) ≡ len
head_length first p len plain fits =
    length_read (post_head first p len) (10 ∷ lines_before p.after crlf) len
      (length_found (first ∷ p.before) len p.after (plain, p.before_other)) fits

abbrev pub data_line : List ℕ
data_line = codes "POST /data HTTP/1.1"

pub data_line-IsOther : IsOther data_line
unfolding after_nocase
data_line-IsOther = ((λ e. cc, ground arith), refl)

pub data_routed :
    (p : Headers) (len : ℕ)
    → router_dispatch (post_head data_line p len) ≡ handled_by to_data (some [])
unfolding router_dispatch lines_before
data_routed p len =
    ap (handled_by to_data)
      (after_blank-lines data_line (all_lines p len) data_line-IsOther.0 (all_lines-All p len))

-- The request line of a frame's post.
abbrev pub image_line : List ℕ
image_line = codes "POST /image HTTP/1.1"

pub image_line-IsOther : IsOther image_line
unfolding after_nocase
image_line-IsOther = ((λ e. cc, ground arith), refl)

pub image_routed :
    (p : Headers) (len : ℕ)
    → router_dispatch (post_head image_line p len) ≡ handled_by to_image (some [])
unfolding router_dispatch lines_before
image_routed p len =
    ap (handled_by to_image)
      (after_blank-lines image_line (all_lines p len) image_line-IsOther.0 (all_lines-All p len))

-- The head fits in the server's first read.
abbrev pub FitsRead : List ℕ → Headers → ℕ → Type 0
FitsRead first p len = length (post_head first p len) ≤ 4095

pub head_short :
    (first : List ℕ) (p : Headers) (len : ℕ)
    → FitsRead first p len
    → drop 4095 (post_head first p len) ≡ []
head_short first p len fits = drop_whole 4095 (post_head first p len) fits

pub head_said :
    (c : ℕ) (first : List ℕ) (p : Headers) (len : ℕ)
    → (length (post_head (c ∷ first) p len) == 0) ≡ false
unfolding lines_before
head_said c first p len = ground arith
