-- ===== src/Camera/Ownership.antt =====
-- Who gives a frame of components/service/src/camera_service.c back, and how often.
use esp_mo_net.Bus.Shape.{IsValid}
use esp_mo_net.Base.{
  [], ◌∷◌, refl, zero, suc, Option, ℕ, ◌≢◌, ◌<◌, ◌^◌, replicate, ◌≡◌, min, ◌==◌, false, arith, ap,
}
use esp_mo_net.Camera.{dispatch, capture_turn, frame_msg, release_frame, call_sink}
use esp_mo_net.Rtos.{Rtos}
use esp_mo_net.Message.{Msg, jpeg_fb, word_at_start-word_bytes, sensor_jpeg}
use esp_mo_net.Bus.{Bus}
use esp_mo_net.Bus.Delivery.{subscriptions, room, publish_delivers}

release-frame_msg :
    (fb ts : ℕ) → fb ≢ 0 → fb < 2 ^ 32 → (release_frame (frame_msg fb ts)).0 ≡ fb ∷ []
unfolding release_frame
release-frame_msg fb ts nz small =
    let at : jpeg_fb (frame_msg fb ts) ≡ fb = word_at_start-word_bytes fb (replicate 124 0) small in
    let held : (jpeg_fb (frame_msg fb ts) == 0) ≡ false = rw at (ground arith) in
    rw held (ap (λ p. p ∷ []) at)

-- Every copy of a frame's message returns the frame.
dispatch-replicate :
    {W : Type 0} (sink_cb : Option (Msg → W → W)) (n fb ts : ℕ) (w : W)
    → fb ≢ 0
    → fb < 2 ^ 32
    → (dispatch sink_cb (replicate n (frame_msg fb ts)) w).0 ≡ replicate n fb
unfolding dispatch
dispatch-replicate sink_cb zero fb ts w nz small = refl
dispatch-replicate sink_cb (suc n) fb ts w nz small =
    rw
      (
        release-frame_msg fb ts nz small,
        dispatch-replicate sink_cb n fb ts (call_sink sink_cb (frame_msg fb ts) w) nz small,
      )
      refl

module _ (os : Rtos) where
  open os use {World, pending}

  -- A captured frame that is published is given back by the dispatcher of a queue as often as the
  -- queue is subscribed to frames or to the group and has room, whatever the sink does. The bus
  -- has a valid shape, the queue is idle with a handle that is not NULL, and the frame's pointer
  -- is a word that is not NULL.
  pub frame_returns :
      {W : Type 0} (sink_cb : Option (Msg → W → W)) (v : W) (bus : Bus) (w : World) (fb ts h : ℕ)
      → IsValid bus
      → fb ≢ 0
      → fb < 2 ^ 32
      → h ≢ 0
      → pending w h ≡ []
      → (dispatch sink_cb (pending (capture_turn os bus w fb ts).1 h) v).0
        ≡ replicate (min (subscriptions bus sensor_jpeg h) (room os w h)) fb
  unfolding capture_turn
  frame_returns sink_cb v bus w fb ts h valid nz small handle idle =
      let here : (fb == 0) ≡ false = ground arith in
      let delivered = publish_delivers os bus (frame_msg fb ts) w h valid handle in
      rw (here, delivered, idle) (dispatch-replicate sink_cb _ fb ts v nz small)
