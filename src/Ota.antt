-- ===== src/Ota.antt =====
-- The companion server's download of the firmware: server/src/handlers/ota_handler.c.
use esp_mo_net.Base.{
  [], ◌∷◌, ◌++◌, refl, zero, suc, none, some, ℕ, Option, ◌-◌, List, if◌then◌else◌, leb, drop, ltb,
  length, ◌==◌, take,
}
pub mod Resume
pub mod Device
pub mod Tests

-- The header `Range: bytes=<start>-`: missing or unreadable, negative, or a start.
pub data Range : Type 0 where
  no_range negative : Range
  from : (start : ℕ) → Range

-- The size of `buf`
abbrev pub chunk_size : ℕ
chunk_size = 1024

-- `range_start`: a start outside of the file is the last byte. For an empty file that is one before
-- its first byte, where `fseek` fails and leaves the file at its start, as it does at 0.
abbrev pub range_start : ℕ → Range → ℕ
range_start filesize no_range = 0
range_start filesize negative = filesize - 1
range_start filesize (from start) = if leb filesize start then filesize - 1 else start

-- The header that is sent: 206 with the range's first byte, last byte and the file's size, or 200.
pub data Header : Type 0 where
  not_found : Header
  partial_content : (length start last size : ℕ) → Header
  whole_content : (length : ℕ) → Header

-- The loop that sends the chunks; `writes` is how many writes the connection takes, each of a whole
-- chunk, and `fuel` the number of bytes that are left.
unfoldable pub send_loop : ℕ → ℕ → List ℕ → List ℕ
send_loop zero writes left = []
send_loop (suc fuel) zero left = []
send_loop (suc fuel) (suc writes) left =
    let rest = send_loop fuel writes (drop chunk_size left) in
    if length left == 0 then [] else take chunk_size left ++ rest

abbrev pub header_for : ℕ → ℕ → Header
header_for filesize start =
    if ltb 0 start
    then partial_content (filesize - start) start (filesize - 1) filesize
    else whole_content filesize

-- `ota_handler`: the header and the body; the file is `none` where it does not open.
unfoldable pub ota_handler : Option (List ℕ) → Range → ℕ → Header × List ℕ
unfolding send_loop
ota_handler none range writes = (not_found, [])
ota_handler (some file) range writes =
    let start = range_start (length file) range in
    let left = drop start file in
    (header_for (length file) start, send_loop (length left) writes left)
