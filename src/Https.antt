-- ===== src/Https.antt =====
-- components/net/src/https_post_hal.c: the two posts over esp_http_client. That client is not part of the
-- repository: what it answers is an argument, and the calls that the code makes of it are the result.
pub mod Calls
pub mod Lost
mod Tests
use Prim.Native.String.{String}
use esp_mo_net.Base.{
  [], ◌∷◌, ◌++◌, refl, zero, suc, none, some, true, false, List, ℕ, Bool, Option, if◌then◌else◌,
  leb, length, not, ◌&&◌, ltb, ◌==◌, ◌%◌, ◌^◌,
}
use esp_mo_net.Uploader.{Net}

-- What the client answers in one post: whether `init` gave a handle, whether `perform` and `open` returned
-- ESP_OK, how much `write` says it wrote, and the status code; an `int` is its 32-bit pattern.
pub record Answers : Type 0 where
  pub made : Bool
  pub performed : Bool
  pub opened : Bool
  pub written : ℕ
  pub status : ℕ

pub data ClientCall : Type 0 where
  client_init client_perform client_close client_cleanup : ClientCall
  set_header : String → String → ClientCall
  set_post_field : List ℕ → ClientCall
  client_open : ℕ → ClientCall
  client_write : List ℕ → ClientCall

-- `http_post_send`; the status is only logged.
unfoldable pub http_post_send : Answers → List ℕ → Bool × List ClientCall
http_post_send a json = if not a.made then (false, client_init ∷ []) else (
  a.performed,
  client_init
      ∷ set_header "Content-Type" "application/json"
      ∷ set_post_field json
      ∷ set_header "Connection" "close"
      ∷ client_perform
      ∷ client_cleanup
      ∷ [],
)

-- The answer to a status code.
abbrev is_success : ℕ → Bool
is_success status = leb 200 status && ltb status 300

-- `http_post_image` from `esp_http_client_open` on.
abbrev pub post_opened : Answers → List ℕ → Bool × List ClientCall
post_opened a bytes =
    let sent =
      client_open (length bytes) ∷ client_write bytes ∷ client_close ∷ client_cleanup ∷ [] in
    if not a.opened
    then (false, client_open (length bytes) ∷ client_cleanup ∷ [])
    else if a.written == length bytes % 2 ^ 32
    then (is_success a.status, sent)
    else (false, sent)

-- `http_post_image`; `none` is a NULL pointer, otherwise the bytes are as many as the length says.
unfoldable pub http_post_image : Answers → Option (List ℕ) → Bool × List ClientCall
http_post_image a none = (false, [])
http_post_image a (some []) = (false, [])
http_post_image a (some (b ∷ bytes)) =
    if not a.made
    then (false, client_init ∷ [])
    else (let (ok, calls) = post_opened a (b ∷ bytes) in
        (ok, client_init ∷ set_header "Content-Type" "image/jpeg" ∷ calls))

-- The network of the uploader over this client: its answers in the order of the posts, none of them for a
-- client that cannot be made, and the calls so far, the last post's first.
pub record Link : Type 0 where
  pub up : Bool
  pub answers : List Answers
  pub log : List (List ClientCall)
  pub frame : List ℕ

abbrev no_client : Answers
no_client = record { made = false; performed = false; opened = false; written = 0; status = 0 }

abbrev next_answers : List Answers → Answers × List Answers
next_answers [] = (no_client, [])
next_answers (a ∷ later) = (a, later)

abbrev pub over : (Answers → Bool × List ClientCall) → Link → Bool × Link
over post w =
    let (a, later) = next_answers w.answers in
    let (ok, calls) = post a in (ok, record w { answers = later; log = calls ∷ w.log })

abbrev pub https_net : Net Link
https_net = record {
  is_connected = λ w. w.up;
  post_send = λ json w. over (λ a. http_post_send a json) w;
  post_image = λ bytes w. over (λ a. http_post_image a (some bytes)) w;
  frame_at = λ w p. some w.frame;
}
