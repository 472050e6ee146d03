-- ===== src/Server/Arrives.antt =====
-- How a request reaches its handler, and the device's post over the server's first read to data_handler.
use esp_mo_net.Base.{
  [], ◌∷◌, ◌++◌, some, true, false, List, ℕ, ◌≤◌, ◌<◌, ◌≡◌, ◌≢◌, ◌^◌, ◌==◌, arith, length, min, ap,
  ◌∙◌, take-append, take,
}
use esp_mo_net.Server.{data_handler, data_ok, data_limit, Request}
use esp_mo_net.Format.{codes}
use esp_mo_net.Server.Client.{client_thread, data_answered}
use esp_mo_net.Server.Body.{AllFull, stream, data_handler_lem}
use esp_mo_net.Server.Heads.{client_serves, length_pos}
use esp_mo_net.Server.Posts.{
  Headers, FitsRead, data_line, post_head, head_short, head_said, data_routed, head_length,
  data_line-IsOther,
}

-- What data_handler makes of a length and of what follows the head.
handled :
    (len : ℕ) (incoming : List (List ℕ))
    → 0 < len
    → len ≤ data_limit
    → AllFull incoming
    → data_handler true (record { content_len = len; payload = some [] }) incoming
      ≡ data_ok (take len (stream incoming))
handled len incoming pos fits full =
    let req : Request = record { content_len = len; payload = some [] } in
    let cap : min len data_limit ≡ len = omega (arith, fits) in
    let nz : (len == 0) ≡ false = ground arith in
    data_handler_lem req incoming full ∙ rw (nz, cap, nz)

-- A connection whose first record is the head of a post to /data, with any other header lines and with the length of
-- a text that is not empty and has at most one megabyte, and which then delivers the text in whatever records,
-- is routed to data_handler, which gets exactly the text, whatever follows it. The head fits in the first read,
-- memory suffices, and no record is empty.
pub posted_arrives :
    (p : Headers) (json later : List ℕ) (incoming : List (List ℕ))
    → FitsRead data_line p (length json)
    → json ≢ []
    → length json ≤ data_limit
    → AllFull incoming
    → stream incoming ≡ json ++ later
    → client_thread true true (post_head data_line p (length json) ∷ incoming)
      ≡ data_answered (data_ok json)
unfolding client_thread
posted_arrives p json later incoming short some_text fits full arrives =
    let len = length json in
    let small : len < 2 ^ 32 = omega (arith, fits) in
    client_serves true (post_head data_line p len) incoming (head_short data_line p len short)
      (head_said 80 (codes "OST /data HTTP/1.1") p len)
    ∙ rw (data_routed p len) (
        simp (head_length data_line p len data_line-IsOther small) (
          ap data_answered (
            handled len incoming (length_pos json some_text) fits full
            ∙ rw arrives (ap data_ok (take-append json later)))))
