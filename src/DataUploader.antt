-- ===== src/DataUploader.antt =====
-- components/service/src/data_uploader_service.c: one task per topic that uploads over Wi-Fi, else BLE, else
-- the cache. A task's loop is one function per turn.
pub mod Turns
pub mod Idle
mod Tests
use esp_mo_net.Base.{
  [], ◌∷◌, ◌++◌, refl, zero, suc, none, some, true, false, List, ℕ, Bool, Option, if◌then◌else◌,
  c_string, ◌>>=◌, ◌==◌,
}
use esp_mo_net.Service.{ServiceDesc, subscriber, msg_topic_end}
use esp_mo_net.Bus.{Bus, subscribe}
use esp_mo_net.Cache.{
  TextSender, BlobSender, Config, Cache, push, flush_once_with_sender, flush_once_with_sender_ex,
  push_blob,
}
use esp_mo_net.Uploader.{Net, image_sender}
use esp_mo_net.Rtos.{Rtos, Task, null}
use Prim.Native.String.{String}
use esp_mo_net.Message.{sensor_jpeg, sensor_light, Msg, jpeg_fb}
use esp_mo_net.Codec.{json_encode_msg}
use esp_mo_net.Cache.Text.{text_sender}

abbrev queue_length : ℕ
queue_length = 4

-- The start of a task: its queue and the subscription, without which it ends.
module _ (os : Rtos) where
  open os use {World, queue_create}

  unfoldable pub subscribe_task : ℕ → Bus → World → Option ℕ × Bus × World
  subscribe_task topic bus w =
      let (queue, w') = queue_create w queue_length in
      let (ok, bus') = subscribe bus topic queue in (if ok then some queue else none, bus', w')

-- What the tasks ask of BLE: `ble_service_is_connected` and `ble_service_notify_raw`.
pub record BleLink (W : Type 0) : Type 0 where
  pub is_connected : W → Bool
  pub notify_raw : List ℕ → W → Bool × W
  -- What a call of `ble_service_notify_raw` through a pointer to a function of one argument does, which C leaves
  -- undefined.
  pub notify_raw_cast : TextSender W

abbrev json_buf_bytes : ℕ
json_buf_bytes = 128

module _ {W : Type 0} (cfg : Config) (net : Net W) (ble : BleLink W) where
  -- The upload of a text: whether it was taken.
  abbrev upload_text : List ℕ → W → Bool × W
  upload_text json w =
      if net.is_connected w
      then net.post_send json w
      else if ble.is_connected w
      then ble.notify_raw json w
      else (false, w)

  abbrev pub cache_unless : Bool → List ℕ → Cache → Cache
  cache_unless success json c = if success then c else (push cfg c json).1

  -- The retry at the end of a turn; its result is not used.
  abbrev pub retry : Cache → W → Option (Cache × W)
  retry c w =
      if net.is_connected w
      then (flush_once_with_sender cfg c (some (text_sender net.post_send)) w >>= λ (sent, c', w').
          some (c', w'))
      else if ble.is_connected w
      then (flush_once_with_sender cfg c (some ble.notify_raw_cast) w >>= λ (sent, c', w').
          some (c', w'))
      else some (c, w)

  -- The encoded message is uploaded or cached, and the retry follows.
  abbrev pub upload_json : List ℕ → Cache → W → Option (Cache × W)
  upload_json json c w =
      let (success, w') = upload_text json w in retry (cache_unless success json c) w'

  -- A turn of `light_uploader_task` with a received message; what cannot be encoded is skipped.
  abbrev pub uploaded : Bool × Option (List ℕ) → Cache → W → Option (Cache × W)
  uploaded (true, some json_buf) c w = c_string json_buf >>= λ json. upload_json json c w
  uploaded (true, none) c w = none
  uploaded (false, out) c w = some (c, w)

  unfoldable pub light_uploader_turn : List ℕ → Msg → Cache → W → Option (Cache × W)
  light_uploader_turn json_buf m c w =
      uploaded (json_encode_msg (some m) (some json_buf) json_buf_bytes) c w

  -- Whether a release hook is called on the message.
  abbrev pub released : Msg → List Msg
  released m = elim m.release [ none ↦ [] | some hook ↦ m ∷ [] ]

  abbrev pub upload_frame : List ℕ → W → Bool × W
  upload_frame bytes w = if net.is_connected w then net.post_image bytes w else (false, w)

  abbrev pub frame_retry : Cache → W → Option (Cache × W)
  frame_retry c w =
      if net.is_connected w
      then (flush_once_with_sender_ex cfg c (some (image_sender cfg net)) w >>= λ (sent, c', w').
          some (c', w'))
      else some (c, w)

  abbrev pub frame_turn : Msg → List ℕ → Cache → W → Option (List Msg × Cache × W)
  frame_turn m [] c w = some (released m, c, w)
  frame_turn m (b ∷ bytes) c w =
      let (success, w') = upload_frame (b ∷ bytes) w in
      frame_retry (if success then c else (push_blob cfg c (b ∷ bytes)).1) w' >>= λ (c', w'').
      some (released m, c', w'')

  -- A turn of `jpeg_uploader_task` with a received message: the releases, the cache, the world. `none` is a
  -- pointer that leads to no frame, or a fault of the flush.
  unfoldable pub jpeg_uploader_turn : Msg → Cache → W → Option (List Msg × Cache × W)
  jpeg_uploader_turn m c w =
      if jpeg_fb m == 0
      then some (released m, c, w)
      else (net.frame_at w (jpeg_fb m) >>= λ bytes. frame_turn m bytes c w)

-- The descriptors; `task` is the address of the task's entry.
abbrev data_uploader_jpeg_desc : ℕ → ServiceDesc
data_uploader_jpeg_desc task = record {
  name = some "jpeg_uploader";
  task_fn = task;
  task_name = some "jpeg_uploader_task";
  stack_size = 4096;
  priority = 5;
  role = subscriber;
  topics = some (sensor_jpeg ∷ msg_topic_end ∷ []);
  sink_cb = 0;
}

abbrev pub data_uploader_light_desc : ℕ → ServiceDesc
data_uploader_light_desc task = record {
  name = some "light_uploader";
  task_fn = task;
  task_name = some "light_uploader_task";
  stack_size = 4096;
  priority = 5;
  role = subscriber;
  topics = some (sensor_light ∷ msg_topic_end ∷ []);
  sink_cb = 0;
}

module _ (os : Rtos) where
  open os use {World}

  abbrev legacy_task : ℕ → String → Task
  legacy_task entry name = record {
    entry = entry;
    name = some name;
    stack_size = 4096;
    priority = 5;
    arg = null;
  }

  -- `data_uploader_service_start`, for the macros that are defined and the addresses of the two tasks.
  unfoldable pub data_uploader_service_start : Bool → Bool → ℕ → ℕ → World → World
  data_uploader_service_start light jpeg light_task jpeg_task w =
      let w₁ =
        if light then (os.task_create w (legacy_task light_task "light_uploader_task")).1 else w in
      if jpeg then (os.task_create w₁ (legacy_task jpeg_task "jpeg_uploader_task")).1 else w₁
