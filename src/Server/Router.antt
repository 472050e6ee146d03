-- ===== src/Server/Router.antt =====
-- server/src/router.c, the client's thread of server/src/net/ssl_server.c, and the length that the handlers
-- find in the headers. The request is the bytes of the first read; C's string functions stop at the first NUL.
use esp_mo_net.Base.{
  [], ◌∷◌, zero, suc, none, some, true, false, List, ℕ, Bool, Option, ◌^◌, if◌then◌else◌, ◌||◌,
  length, ◌&&◌, leb, min, ◌==◌, ◌-◌, ◌+◌,
}
use esp_mo_net.Format.Read.{strip}
use esp_mo_net.Format.Digits.{scan}
use esp_mo_net.Format.{codes}

-- `isspace`
abbrev is_space : ℕ → Bool
is_space c = c == 32 || (leb 9 c && leb c 13)

abbrev ends_word : ℕ → Bool
ends_word c = is_space c || c == 0

unfoldable pub skip_spaces : List ℕ → List ℕ
skip_spaces [] = []
skip_spaces (c ∷ s) = let rest = skip_spaces s in if is_space c then rest else c ∷ s

-- A word of at most so many characters, and what follows.
unfoldable scan_word : ℕ → List ℕ → List ℕ × List ℕ
scan_word zero s = ([], s)
scan_word (suc width) [] = ([], [])
scan_word (suc width) (c ∷ s) =
    let (word, rest) = scan_word width s in if ends_word c then ([], c ∷ s) else (c ∷ word, rest)

-- `sscanf(req_buf, "%7s %127s", method, path)`; `none` unless both are found.
unfoldable pub request_line : List ℕ → Option (List ℕ × List ℕ)
unfolding skip_spaces scan_word
request_line req_buf =
    let (method, s₁) = scan_word 7 (skip_spaces req_buf) in
    let (path, s₂) = scan_word 127 (skip_spaces s₁) in
    if length method == 0 || length path == 0 then none else some (method, path)

-- `path[strcspn(path, "\r\n")] = 0`
unfoldable cut_line : List ℕ → List ℕ
cut_line [] = []
cut_line (c ∷ s) = let rest = cut_line s in if c == 13 || c == 10 then [] else c ∷ rest

abbrev pub blank_line : List ℕ
blank_line = 13 ∷ 10 ∷ 13 ∷ 10 ∷ []

-- What stands behind the first blank line: `strstr`, and the four bytes skipped.
unfoldable pub after_blank : List ℕ → Option (List ℕ)
after_blank [] = none
after_blank (c ∷ s) =
    let here = strip blank_line (c ∷ s) in
    let later = after_blank s in
    if c == 0 then none else (elim here [ none ↦ later | some rest ↦ some rest ])

-- `strcmp` of two strings
unfoldable same_text : List ℕ → List ℕ → Bool
same_text [] [] = true
same_text [] (d ∷ t) = false
same_text (c ∷ s) [] = false
same_text (c ∷ s) (d ∷ t) = let rest = same_text s t in if c == d then rest else false

pub data Handler : Type 0 where
  to_status to_data to_ota to_sha256 to_image : Handler

-- `ROUTES`
abbrev pub routes : List (List ℕ × List ℕ × Handler)
routes =
    (codes "GET", codes "/status", to_status)
    ∷ (codes "POST", codes "/data", to_data)
    ∷ (codes "GET", codes "/firmware.bin", to_ota)
    ∷ (codes "GET", codes "/firmware.sha256", to_sha256)
    ∷ (codes "POST", codes "/image", to_image)
    ∷ []

-- The loop over the routes.
unfoldable find_route : List ℕ → List ℕ → List (List ℕ × List ℕ × Handler) → Option Handler
unfolding same_text
find_route method path [] = none
find_route method path ((m, p, handler) ∷ rs) =
    let rest = find_route method path rs in
    if same_text method m && same_text path p then some handler else rest

-- `router_dispatch` up to the handler's call.
pub data Dispatch : Type 0 where
  bad_line not_found : Dispatch
  handled_by : Handler → Option (List ℕ) → Dispatch

unfoldable pub router_dispatch : List ℕ → Dispatch
unfolding request_line cut_line after_blank find_route
router_dispatch req_buf = elim (request_line req_buf) [
  | none ↦ bad_line
  | some (method, path) ↦ elim (find_route method (cut_line path) routes) [
    | none ↦ not_found
    | some handler ↦ handled_by handler (after_blank req_buf)
  ]
]

-- `tolower`
abbrev pub lower : ℕ → ℕ
lower c = if leb b'A' c && leb c b'Z' then c + 32 else c

-- A text, its case aside, at the start of another; what follows it.
unfoldable pub strip_nocase : List ℕ → List ℕ → Option (List ℕ)
strip_nocase [] s = some s
strip_nocase (c ∷ p) [] = none
strip_nocase (c ∷ p) (d ∷ s) =
    let rest = strip_nocase p s in if lower c == lower d then rest else none

-- `strcasestr`, from behind what it finds.
unfoldable pub after_nocase : List ℕ → List ℕ → Option (List ℕ)
unfolding strip_nocase
after_nocase p [] = none
after_nocase p (c ∷ s) =
    let here = strip_nocase p (c ∷ s) in
    let later = after_nocase p s in
    if c == 0 then none else (elim here [ none ↦ later | some rest ↦ some rest ])

-- `strtol` in base ten; what is not positive is 0 here, as the handlers treat it alike.
abbrev pub positive_number : List ℕ → ℕ
positive_number [] = 0
positive_number (c ∷ s) =
    if c == b'-' then 0 else if c == b'+' then (scan s 0).0 else (scan (c ∷ s) 0).0

abbrev pub long_max : ℕ
long_max = 2 ^ 63 - 1

-- `parse_content_length`, with 0 for a missing header and for what is not positive.
unfoldable pub parse_content_length : List ℕ → ℕ
unfolding after_nocase skip_spaces
parse_content_length hdr = elim (after_nocase (codes "Content-Length:") hdr) [
  | none ↦ 0
  | some value ↦ min long_max (positive_number (skip_spaces value))
]
