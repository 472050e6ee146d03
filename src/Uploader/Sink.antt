-- ===== src/Uploader/Sink.antt =====
-- What the sink of components/service/src/http_uploader_service.c does with its messages and with the
-- queue that its cache stands for.
use esp_mo_net.Cache.Queue
use esp_mo_net.Cache.Invariant.{
  IsValid, push-IsValid, push_blob-IsValid, entry-Fits, drop_head-IsValid,
}
use esp_mo_net.Base.{
  [], ◌∷◌, ◌++◌, refl, some, List, ℕ, Option, ◌≡◌, Bool, false, ◌≢◌, c_string, IsText, true,
  if◌then◌else◌, ltb, length, ◌==◌, arith, ap, c_string-take, c_string-append, Bool-cases, inl, inr,
}
use esp_mo_net.Cache.{
  Config, Cache, flush_once_with_sender, flush_once_with_sender_ex, push, push_blob, drop_head,
  entry_at, is_empty,
}
use esp_mo_net.Uploader.{Net, http_sink_handler, flush_cache, image_sender}
use esp_mo_net.Cache.Invariant.{IsConfig}
use esp_mo_net.Message.{Msg, sensor_jpeg, jpeg_fb}
use esp_mo_net.Cache.Text.{text_sender, count_pos, rest_waiting, head_payload}
use esp_mo_net.Cache.Refine.{contents, push_refines, push_blob_refines}

module _ {W : Type 0} {cfg : Config} (net : Net W) (c : Cache) (k : IsConfig cfg)
    (v : IsValid cfg c) where
  -- The message is kept, nothing is sent, and the queue of the cache is as said.
  abbrev pub Keeps : W → List (List ℕ) → Option (Bool × Cache × W) → Type 0
  Keeps w q r = (c' : Cache) × (r ≡ some (false, c', w)) × IsValid cfg c' × (contents cfg c' ≡ q)

  -- Without Wi-Fi, the sink answers a message that holds a text with false, sends nothing, keeps
  -- the cache valid, and puts the text at the end of the cache's queue, cut and closed by a NUL,
  -- or drops it if the queue is full. The cache is valid, the topic is not that of frames, and the
  -- text is not empty.
  pub offline_text :
      (w : W) (m : Msg) (json : List ℕ)
      → net.is_connected w ≡ false
      → m.topic ≢ sensor_jpeg
      → c_string m.payload ≡ some json
      → json ≢ []
      → Keeps w
          (Queue.enqueue cfg.max_items (contents cfg c) (Queue.text_payload cfg json)).1
          (http_sink_handler cfg net c w m)
  unfolding http_sink_handler
  offline_text w m [] off other text nonempty = absurd (nonempty refl)
  offline_text w m (b ∷ json) off other text nonempty =
      let topic : (m.topic == sensor_jpeg) ≡ false = ground arith in
      rw (topic, text, off)
        (
          (push cfg c (b ∷ json)).1,
          refl,
          push-IsValid c k v (b ∷ json),
          ap (λ r. r.1) (push_refines c k v (b ∷ json)),
        )

  -- Without Wi-Fi, the sink answers a message with a frame with false, sends nothing, keeps the
  -- cache valid, and puts the frame's bytes at the end of the cache's queue, unless the queue is
  -- full or the frame is larger than an entry, when it is dropped. The cache is valid, and the
  -- pointer leads to a frame that is not empty.
  pub offline_image :
      (w : W) (m : Msg) (bytes : List ℕ)
      → net.is_connected w ≡ false
      → m.topic ≡ sensor_jpeg
      → jpeg_fb m ≢ 0
      → net.frame_at w (jpeg_fb m) ≡ some bytes
      → bytes ≢ []
      → Keeps w
          (if ltb cfg.item_size (length bytes)
            then contents cfg c
            else (Queue.enqueue cfg.max_items (contents cfg c) bytes).1)
          (http_sink_handler cfg net c w m)
  unfolding http_sink_handler
  offline_image w m [] off jpeg ptr frame nonempty = absurd (nonempty refl)
  offline_image w m (b ∷ bytes) off jpeg ptr frame nonempty =
      let topic : (m.topic == sensor_jpeg) ≡ true = ground arith in
      let handle : (jpeg_fb m == 0) ≡ false = ground arith in
      rw (topic, handle, frame, off)
        (
          (push_blob cfg c (b ∷ bytes)).1,
          refl,
          push_blob-IsValid c k v (b ∷ bytes),
          ground (arith, push_blob_refines c k v (b ∷ bytes)),
        )

  -- The first flush gives the oldest payload, up to its first NUL, to the sender of texts.
  flush_text :
      (w : W) (s r : List ℕ) (rest : List (List ℕ))
      → contents cfg c ≡ (s ++ 0 ∷ r) ∷ rest
      → IsText s
      → flush_once_with_sender cfg c (some (text_sender net.post_send)) w
        ≡ (let (sent, w') = net.post_send s w in some (sent, drop_head cfg c sent, w'))
  unfolding flush_once_with_sender text_sender
  flush_text w s r rest e t = ground (
    arith,
    c_string-take (entry_at cfg c c.head).len (entry_at cfg c c.head).bytes s
        (rw (head_payload c k v (s ++ 0 ∷ r) rest e) (c_string-append s r t)),
    count_pos c k v (s ++ 0 ∷ r) rest e,
  )

  -- The second one gives the oldest payload to the sender of images.
  flush_image :
      (w : W) (y : List ℕ) (rest : List (List ℕ))
      → contents cfg c ≡ y ∷ rest
      → flush_once_with_sender_ex cfg c (some (image_sender cfg net)) w
        ≡ (let (sent, w') = net.post_image y w in some (sent, drop_head cfg c sent, w'))
  unfolding flush_once_with_sender_ex
  flush_image w y rest e =
      let fits = entry-Fits c k v c.head v.head_in in
      let short : ltb (length (entry_at cfg c c.head).bytes) (entry_at cfg c c.head).len ≡ false =
        ground arith in
      let some_left : is_empty c ≡ false = ground (arith, count_pos c k v y rest e) in
      rw (short, some_left, head_payload c k v y rest e) refl

-- Whatever kind the queued payloads are of, a flush gives the oldest one, up to its first NUL, to
-- the sender of texts and the next one to the sender of images, which then leaves the queue if it
-- was taken. The cache is valid, the oldest payload has a NUL, and the sender of texts takes it.
pub flush_alternates :
    {W : Type 0} {cfg : Config} (net : Net W) (c : Cache)
    → IsConfig cfg
    → IsValid cfg c
    → (w : W) (s r y : List ℕ) (rest : List (List ℕ)) → contents cfg c ≡ (s ++ 0 ∷ r) ∷ y ∷ rest
    → IsText s
    → (net.post_send s w).0 ≡ true
    → let (sent, w₂) = net.post_image y (net.post_send s w).1 in
      (c' : Cache) × (flush_cache cfg net c w ≡ some (c', w₂))
      × (contents cfg c' ≡ (if sent then rest else y ∷ rest))
unfolding flush_cache
flush_alternates {cfg = cfg} net c k v w s r y rest e t takes =
    let some_left = count_pos c k v (s ++ 0 ∷ r) (y ∷ rest) e in
    let c₁ = drop_head cfg c true in
    let v₁ = drop_head-IsValid c k v true some_left in
    let e₁ = rest_waiting c k v (s ++ 0 ∷ r) (y ∷ rest) e in
    let w₁ = (net.post_send s w).1 in
    (
      drop_head cfg c₁ (net.post_image y w₁).0,
      rw (flush_text net c k v w s r (y ∷ rest) e t, takes, flush_image net c₁ k v₁ w₁ y rest e₁)
          refl,
      elim (Bool-cases (net.post_image y w₁).0) [
        | inl sent ↦ rw sent (rest_waiting c₁ k v₁ y rest e₁)
        | inr kept ↦ rw kept e₁
      ],
    )
