-- ===== src/Uploader.antt =====
-- components/service/src/http_uploader_service.c: the sink of the HTTP uploader, over the cache
-- (components/utils/src/cache.c) and the network.
use esp_mo_net.Base.{
  [], ◌∷◌, ◌++◌, refl, zero, suc, none, some, Bool, List, if◌then◌else◌, ℕ, ltb, Option, false,
  length, ◌>>=◌, ◌==◌, take, c_string,
}
use esp_mo_net.Cache.{
  Config, BlobSender, Cache, flush_once_with_sender, push_blob, push, TextSender,
  flush_once_with_sender_ex,
}
use esp_mo_net.Message.{Msg, sensor_jpeg, jpeg_fb}
use esp_mo_net.Cache.Text.{text_sender}
pub mod Sink
pub mod Flush
pub mod Tests

-- What the sink asks of the network and of the camera's driver: `wifi_service_is_connected`,
-- `http_post_send`, `http_post_image`, and the bytes of the frame that a pointer leads to. `frame_at`
-- is `none` where no frame is, and an empty list stands for a frame without a buffer too.
pub record Net (W : Type 0) : Type 0 where
  pub is_connected : W → Bool
  pub post_send : List ℕ → W → Bool × W
  pub post_image : List ℕ → W → Bool × W
  pub frame_at : W → ℕ → Option (List ℕ)

module _ {W : Type 0} (cfg : Config) (net : Net W) where
  -- `http_post_image` reads as many bytes as it is told.
  abbrev pub image_sender : BlobSender W
  image_sender bytes len w =
      if ltb (length bytes) len then none else some (net.post_image (take len bytes) w)

  -- The flushes at the end; their results are not used.
  unfoldable pub flush_cache : Cache → W → Option (Cache × W)
  flush_cache c w =
      flush_once_with_sender cfg c (some (text_sender net.post_send)) w >>= λ (sent, c₁, w₁).
      flush_once_with_sender_ex cfg c₁ (some image_sender) w₁ >>= λ (sent', c₂, w₂). some (c₂, w₂)

  -- From the label EXIT on.
  abbrev pub leave : Bool → Bool → Cache → W → Option (Bool × Cache × W)
  leave wifi_ok ok c w =
      if wifi_ok then (flush_cache c w >>= λ (c', w'). some (ok, c', w')) else some (ok, c, w)

  -- The post of a payload, if there is Wi-Fi.
  abbrev post_if : Bool → (W → Bool × W) → W → Bool × W
  post_if wifi_ok post w = if wifi_ok then post w else (false, w)

  -- A frame is posted, or pushed as a blob.
  abbrev sink_image : Bool → Cache → W → List ℕ → Option (Bool × Cache × W)
  sink_image wifi_ok c w [] = leave wifi_ok false c w
  sink_image wifi_ok c w (b ∷ bytes) =
      let (ok, w') = post_if wifi_ok (net.post_image (b ∷ bytes)) w in
      leave wifi_ok ok (if ok then c else (push_blob cfg c (b ∷ bytes)).1) w'

  -- A text is posted, or pushed; an empty one is thrown out.
  abbrev sink_text : Bool → Cache → W → List ℕ → Option (Bool × Cache × W)
  sink_text wifi_ok c w [] = leave wifi_ok false c w
  sink_text wifi_ok c w (b ∷ json) =
      let (ok, w') = post_if wifi_ok (net.post_send (b ∷ json)) w in
      leave wifi_ok ok (if ok then c else (push cfg c (b ∷ json)).1) w'

  -- `http_sink_handler`; `none` is a pointer that leads to no frame, a text without an end, or a
  -- fault of a flush.
  unfoldable pub http_sink_handler : Cache → W → Msg → Option (Bool × Cache × W)
  unfolding flush_cache
  http_sink_handler c w m =
      let wifi_ok = net.is_connected w in
      if m.topic == sensor_jpeg
      then (if jpeg_fb m == 0
          then leave wifi_ok false c w
          else (net.frame_at w (jpeg_fb m) >>= sink_image wifi_ok c w))
      else (c_string m.payload >>= sink_text wifi_ok c w)
