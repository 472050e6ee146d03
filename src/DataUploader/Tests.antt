-- ===== src/DataUploader/Tests.antt =====
-- Turns of the uploader's tasks, and the theorems at concrete inputs.
use esp_mo_net.Base.{
  [], ◌∷◌, refl, none, some, true, false, List, ℕ, Bool, replicate, ◌≡◌, arith, c_string, length,
}
use esp_mo_net.Cache.{init, Config, Cache, push, flush_once_with_sender_ex, flush_once_with_sender}
use esp_mo_net.Rtos.{null}
use esp_mo_net.Uploader.{Net}
use esp_mo_net.Registry.{State}
use esp_mo_net.Service.{ServiceEntry, disabled, find}
use esp_mo_net.Message.{
  Msg, value_int, sensor_light, sensor_jpeg, word_bytes, word_payload, word_at_start-word_bytes,
  word_at_start, release_camera_frame,
}
use esp_mo_net.DataUploader.{
  light_uploader_turn, jpeg_uploader_turn, subscribe_task, data_uploader_light_desc, BleLink,
  upload_json, data_uploader_service_start,
}
use esp_mo_net.Rtos.Simple.{simple, quiet}
use esp_mo_net.Codec.{json_encode_msg, light_text}
use esp_mo_net.Bus.{subscribe}
use esp_mo_net.Format.{codes, snprintf, decimal_i32, digits}
use esp_mo_net.Sensors.{light_msg}
use esp_mo_net.DataUploader.Turns.{first_characters, uploads_constant}
use esp_mo_net.Codec.Decode.{decode_light}
use esp_mo_net.Cache.Text.{text_sender}
use esp_mo_net.Bus

-- A network that notes what it is given, and a BLE link that refuses.
abbrev net : Bool → Net (List (List ℕ))
net up = record {
  is_connected = λ w. up;
  post_send = λ json w. (true, json ∷ w);
  post_image = λ bytes w. (true, bytes ∷ w);
  frame_at = λ w p. some (0xFF ∷ 0xD8 ∷ []);
}

abbrev link : Bool → BleLink (List (List ℕ))
link up = record {
  is_connected = λ w. up;
  notify_raw = λ json w. (false, w);
  notify_raw_cast = λ item w. none;
}

abbrev small : Config
small = record { max_items = 2; item_size = 128 }

abbrev buffer : List ℕ
buffer = replicate 128 0xAA

abbrev plain : Msg
plain = record { topic = sensor_light; ts_ms = 7; payload = word_payload 300; release = none }

plain_value : value_int plain ≡ 300
plain_value = word_at_start-word_bytes 300 (replicate 124 0) (omega arith)

abbrev picture : Msg
picture = record {
  topic = sensor_jpeg;
  ts_ms = 7;
  payload = word_payload 9;
  release = some release_camera_frame;
}

abbrev one_waiting : Cache
one_waiting = (push small (init small) (codes "{}")).1

light_runs :
    light_uploader_turn small (net true) (link false) buffer plain (init small) []
    ≡ some (init small, light_text 300 7 ∷ [])
unfolding light_uploader_turn json_encode_msg snprintf word_bytes word_at_start light_text
    decimal_i32 digits c_string flush_once_with_sender text_sender init
light_runs = refl

jpeg_runs :
    jpeg_uploader_turn small (net true) (link false) picture (init small) []
    ≡ some (picture ∷ [], init small, (0xFF ∷ 0xD8 ∷ []) ∷ [])
unfolding jpeg_uploader_turn word_bytes word_at_start flush_once_with_sender_ex init
jpeg_runs = refl

no_queue_ends : (subscribe_task simple 9 Bus.init quiet).0 ≡ none
unfolding subscribe_task subscribe Bus.init
no_queue_ends = refl

uploads_constant_example :
    (json : List ℕ) × (light_uploader_turn small
        (net true)
        (link false)
        buffer
        (light_msg 300 7)
        (init small)
        []
      ≡ upload_json small (net true) (link false) json (init small) [])
    × (decode_light json ≡ some (first_characters, 7))
uploads_constant_example =
    uploads_constant small (net true) (link false) buffer 300 7 (init small) [] refl (omega arith)

waiting : one_waiting.count ≡ 1
unfolding push init
waiting = refl

abbrev uploader : ServiceEntry
uploader = record {
  desc = data_uploader_light_desc 5;
  handle = 0;
  state = disabled;
  task_arg = null;
}

abbrev boot : State simple
boot = record { entries = uploader ∷ []; bus = Bus.init; world = quiet }

found : find "light_uploader" (uploader ∷ []) ≡ some (0, uploader)
unfolding find
found = refl

legacy_starts :
    (length (data_uploader_service_start simple true true 5 6 quiet).tasks ≡ 2)
    × (data_uploader_service_start simple false false 5 6 quiet ≡ quiet)
unfolding data_uploader_service_start
legacy_starts = (refl, refl)
