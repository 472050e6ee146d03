-- ===== src/Camera.antt =====
-- components/service/src/camera_service.c: the frames that are published, and their release; and
-- components/monet_core/src/service_registry.c, subscriber_dispatch_task, which releases them.
use esp_mo_net.Base.{
  [], ◌∷◌, ◌++◌, refl, zero, suc, none, some, Option, ℕ, List, if◌then◌else◌, ◌==◌, ◌&&◌, not, drop,
  Bool, leb, ◌+◌, ◌^◌, ◌%◌,
}
use esp_mo_net.Message.{
  Msg, ReleaseHook, sensor_jpeg, word_payload, release_camera_frame, jpeg_fb, word_bytes,
}
use esp_mo_net.Service.{ServiceDesc, publisher}
use esp_mo_net.Rtos.{Rtos}
use esp_mo_net.Bus.{Bus, publish}
pub mod Ownership
pub mod Tests

-- `release_camera_frame` on a message: the frames that `esp_camera_fb_return` is called with, and the
-- message, whose frame pointer is NULL afterwards.
unfoldable pub release_frame : Msg → List ℕ × Msg
release_frame m =
    if m.topic == sensor_jpeg && not (jpeg_fb m == 0)
    then (jpeg_fb m ∷ [], record m { payload = word_bytes 0 ++ drop 4 m.payload })
    else ([], m)

-- The call of a message's `release`.
abbrev pub release_hook : Option ReleaseHook → Msg → List ℕ × Msg
release_hook none m = ([], m)
release_hook (some release_camera_frame) m = release_frame m

-- The call of a subscriber's `sink_cb`.
abbrev pub call_sink : {W : Type 0} → Option (Msg → W → W) → Msg → W → W
call_sink none m w = w
call_sink (some sink) m w = sink m w

-- `subscriber_dispatch_task` on the messages that its queue hands out, each of them a copy of its
-- own: the sink has its effect on the world, and then the copy is released. The result has the
-- frames that were returned, in order.
unfoldable pub dispatch : {W : Type 0} → Option (Msg → W → W) → List Msg → W → List ℕ × W
unfolding release_frame
dispatch sink_cb [] w = ([], w)
dispatch sink_cb (m ∷ ms) w =
    let w₁ = call_sink sink_cb m w in
    let (returned, released) = release_hook m.release m in
    let (more, w₂) = dispatch sink_cb ms w₁ in (returned ++ more, w₂)

-- The message of a captured frame.
abbrev pub frame_msg : ℕ → ℕ → Msg
frame_msg fb ts = record {
  topic = sensor_jpeg;
  ts_ms = ts;
  payload = word_payload fb;
  release = some release_camera_frame;
}

module _ (os : Rtos) where
  open os use {World}

  -- A turn of `camera_service_task` up to its delay, for what `camera_hal_capture` returned.
  unfoldable pub capture_turn : Bus → World → ℕ → ℕ → Bus × World
  capture_turn bus w fb ts = if fb == 0 then (bus, w) else publish os bus (some (frame_msg fb ts)) w

-- The settings of the interval: CONFIG_CAMERA_DYNAMIC_INTERVAL, the thresholds (in dBm, as 32-bit patterns), the
-- three intervals, and the fixed one.
pub record Pacing : Type 0 where
  pub dynamic : Bool
  pub rssi_fast_thresh : ℕ
  pub rssi_med_thresh : ℕ
  pub interval_fast_ms : ℕ
  pub interval_med_ms : ℕ
  pub interval_slow_ms : ℕ
  pub capture_interval_ms : ℕ

-- `a >= b` of two `int`s given by their patterns.
abbrev int_ge : ℕ → ℕ → Bool
int_ge a b = leb ((b + 2 ^ 31) % 2 ^ 32) ((a + 2 ^ 31) % 2 ^ 32)

-- `choose_interval_ms`, for what `wifi_get_rssi` says.
unfoldable choose_interval_ms : Pacing → ℕ → ℕ
choose_interval_ms p rssi =
    if not p.dynamic
    then p.capture_interval_ms
    else if int_ge rssi p.rssi_fast_thresh
    then p.interval_fast_ms
    else if int_ge rssi p.rssi_med_thresh
    then p.interval_med_ms
    else p.interval_slow_ms

-- What a turn of the task meets: the frame of `camera_hal_capture`, 0 for none, the time, and the signal.
pub record CameraTurn : Type 0 where
  pub fb : ℕ
  pub ts : ℕ
  pub rssi : ℕ

module _ (os : Rtos) where
  open os use {World}

  -- `camera_service_task` over its turns, with the delays that it makes: a failed initialisation ends it.
  unfoldable camera_service_task :
      Bool → Pacing → List CameraTurn → Bus → World → List ℕ × Bus × World
  unfolding capture_turn choose_interval_ms
  camera_service_task ready p turns bus w = if ready then go turns bus w else ([], bus, w)
    where
      go : List CameraTurn → Bus → World → List ℕ × Bus × World
      go [] bus w = ([], bus, w)
      go (t ∷ turns) bus w =
          let (bus₁, w₁) = capture_turn os bus w t.fb t.ts in
          let (delays, bus₂, w₂) = go turns bus₁ w₁ in
          (choose_interval_ms p t.rssi ∷ delays, bus₂, w₂)

-- The descriptor; the task's address is NULL where the configuration leaves the service out.
abbrev camera_service_desc : ℕ → ServiceDesc
camera_service_desc task = record {
  name = some "camera_service";
  task_fn = task;
  task_name = some "camera_service_task";
  stack_size = 8192;
  priority = 5;
  role = publisher;
  topics = none;
  sink_cb = 0;
}
