-- ===== src/Server.antt =====
-- The companion server's reading of a request's body: server/src/handlers/data_handler.c and
-- server/src/handlers/image_handler.c.
use esp_mo_net.Base.{
  [], ◌∷◌, ◌++◌, refl, zero, suc, none, some, ℕ, List, Bool, if◌then◌else◌, ◌*◌, Option, drop,
  false, min, ◌==◌, take, ◌-◌, length, ltb, true, not,
}
pub mod Body
pub mod Router
pub mod Answers
pub mod Client
pub mod Heads
pub mod Lines
pub mod Posts
pub mod Arrives
pub mod FrameArrives
pub mod Kept
pub mod Process
pub mod Closing
pub mod Ends
pub mod Tests

-- `DATA_RX_BUF` and `RX_BUF`, and the limits of the two handlers.
abbrev pub rx_buf : ℕ
rx_buf = 4096

abbrev pub data_limit : ℕ
data_limit = 1024 * 1024

abbrev pub image_limit : ℕ
image_limit = 10 * 1024 * 1024

-- What the handlers read of `http_request_t`: the value of the Content-Length header, 0 where the
-- header is missing or not positive, and the bytes of the body that came with the first read, if the
-- end of the headers was found.
pub record Request : Type 0 where
  pub content_len : ℕ
  pub payload : Option (List ℕ)

abbrev pub have_bytes : Request → List ℕ
have_bytes (req) = elim req.payload [ none ↦ [] | some bytes ↦ bytes ]

-- `SSL_read` of at most `todo` bytes: it hands out bytes of one record, and nothing at the end of the
-- connection or at an error. The result has the records that are left.
abbrev pub ssl_read : ℕ → List (List ℕ) → List ℕ × List (List ℕ)
ssl_read todo [] = ([], [])
ssl_read todo (r ∷ rs) = elim (drop todo r) [
  | [] ↦ (r, rs)
  | b ∷ bytes ↦ (take todo r, (b ∷ bytes) ∷ rs)
]

-- How the loop over `SSL_read` ends: with `content_len` bytes, or with those that came before the
-- connection ended.
pub record Received : Type 0 where
  pub body : List ℕ
  pub ended_early : Bool

-- The loop of both handlers; `fuel` is the number of bytes that are still wanted.
unfoldable pub read_loop : ℕ → ℕ → List ℕ → List (List ℕ) → Received
read_loop zero len body incoming = record { body = body; ended_early = false }
read_loop (suc fuel) len body incoming =
    let (got, rest) = ssl_read (min (len - length body) rx_buf) incoming in
    let next = read_loop fuel len (body ++ got) rest in
    if ltb (length body) len
    then (if length got == 0 then record { body = body; ended_early = true } else next)
    else record { body = body; ended_early = false }

pub data DataAnswer : Type 0 where
  bad_request no_memory : DataAnswer
  data_ok : (body : List ℕ) → DataAnswer

-- `data_handler` once the length is known: the length is capped, and so are the bytes at hand.
abbrev pub data_body : Bool → ℕ → List ℕ → List (List ℕ) → DataAnswer
data_body room content_len bytes incoming =
    let len = min content_len data_limit in
    let first = take len bytes in
    if room then data_ok (read_loop (len - length first) len first incoming).body else no_memory

-- `data_handler`: without a length it takes the bytes at hand for the body.
unfoldable pub data_handler : Bool → Request → List (List ℕ) → DataAnswer
unfolding read_loop
data_handler room req incoming =
    let bytes = have_bytes req in
    if req.content_len == 0
    then (if length bytes == 0 then bad_request else data_body room (length bytes) bytes incoming)
    else data_body room req.content_len bytes incoming

pub data ImageAnswer : Type 0 where
  length_required too_large failed : ImageAnswer
  image_read : (body : List ℕ) → ImageAnswer

abbrev pub image_result : Received → ImageAnswer
image_result r = if r.ended_early then failed else image_read r.body

-- `image_handler` up to `file_store_save`; `none` is a copy beyond the buffer of `content_len` bytes.
unfoldable pub image_handler : Bool → Request → List (List ℕ) → Option ImageAnswer
unfolding read_loop
image_handler room req incoming =
    let bytes = have_bytes req in
    if req.content_len == 0
    then some length_required
    else if ltb image_limit req.content_len
    then some too_large
    else if not room
    then some failed
    else if ltb req.content_len (length bytes)
    then none
    else some
        (image_result (read_loop (req.content_len - length bytes) req.content_len bytes incoming))
