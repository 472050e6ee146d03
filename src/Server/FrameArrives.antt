-- ===== src/Server/FrameArrives.antt =====
-- The device's post of a frame, over the server's first read, to image_handler.
use esp_mo_net.Base.{
  [], ◌∷◌, ◌++◌, some, true, false, List, ℕ, ◌<◌, length, ◌≢◌, ◌^◌, ◌≤◌, ◌==◌, ◌≡◌, arith,
  length-append, ltb, ◌∙◌, take-append, ap,
}
use esp_mo_net.Server.{Request, image_handler, image_read, image_limit}
use esp_mo_net.Format.{codes}
use esp_mo_net.Server.Heads.{client_serves, length_pos}
use esp_mo_net.Server.Body.{AllFull, stream, image_handler_lem}
use esp_mo_net.Server.Client.{client_thread, image_answered}
use esp_mo_net.Server.Posts.{
  Headers, FitsRead, image_line, post_head, head_short, head_said, image_routed, head_length,
  image_line-IsOther,
}

-- What image_handler makes of a length and of what follows the head.
image_handled :
    (frame later : List ℕ) (incoming : List (List ℕ))
    → 0 < length frame
    → length frame ≤ image_limit
    → AllFull incoming
    → stream incoming ≡ frame ++ later
    → image_handler true (record { content_len = length frame; payload = some [] }) incoming
      ≡ some (image_read frame)
image_handled frame later incoming pos fits full arrives =
    let req : Request = record { content_len = length frame; payload = some [] } in
    let nz : (length frame == 0) ≡ false = ground arith in
    let allowed : ltb image_limit (length frame) ≡ false = ground arith in
    let none_yet : ltb (length frame) 0 ≡ false = ground arith in
    let enough : ltb (length (frame ++ later)) (length frame) ≡ false =
      ground (arith, length-append frame later) in
    image_handler_lem req incoming full
    ∙ rw (nz, allowed, none_yet, arrives, enough, take-append frame later)

-- A connection whose first record is the head of a post to /image, with any other header lines, and which then
-- delivers the frame, is routed to image_handler, which gets exactly the frame if memory suffices.
pub frame_arrives :
    (p : Headers) (frame later : List ℕ) (incoming : List (List ℕ))
    → FitsRead image_line p (length frame)
    → frame ≢ []
    → length frame ≤ image_limit
    → AllFull incoming
    → stream incoming ≡ frame ++ later
    → client_thread true true (post_head image_line p (length frame) ∷ incoming)
      ≡ image_answered (some (image_read frame))
frame_arrives p frame later incoming short some_bytes fits full arrives =
    let len = length frame in
    let small : len < 2 ^ 32 = omega (arith, fits) in
    client_serves true (post_head image_line p len) incoming (head_short image_line p len short)
      (head_said 80 (codes "OST /image HTTP/1.1") p len)
    ∙ rw (image_routed p len) (
        simp (head_length image_line p len image_line-IsOther small) (
          ap image_answered
            (image_handled frame later incoming (length_pos frame some_bytes) fits full arrives)))
