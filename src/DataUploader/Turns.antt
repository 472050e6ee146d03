-- ===== src/DataUploader/Turns.antt =====
-- What the tasks of components/service/src/data_uploader_service.c send, keep and release.
use esp_mo_net.Base.{
  [], ◌∷◌, refl, some, false, List, ℕ, length, ◌≡◌, Ensures, ◌<◌, ◌^◌, arith, ◌∙◌, Bool-cases, inl,
  Ensures-bind, ◌==◌, inr, Ensures-any, if◌then◌else◌,
}
use esp_mo_net.Uploader.{Net}
use esp_mo_net.Cache.{Config, Cache, push, push_blob}
use esp_mo_net.DataUploader.{
  BleLink, light_uploader_turn, jpeg_uploader_turn, released, upload_json, frame_turn, upload_frame,
  frame_retry,
}
use esp_mo_net.Message.{Msg, sensor_light, value_int, jpeg_fb}
use esp_mo_net.Sensors.{light_msg}
use esp_mo_net.Codec.{light_text}
use esp_mo_net.Codec.Decode.{decode_light, decode_light-light_text}
use esp_mo_net.Codec.Fit.{json_encode_msg_light, c_string-encoded}
use esp_mo_net.Sensors.Posted.{value_int_overwritten}

-- The number that the JSON's first four characters make.
abbrev pub first_characters : ℕ
first_characters = 0x7422207B

light_msg_head :
    (value now : ℕ)
    → ((light_msg value now).topic ≡ sensor_light) × ((light_msg value now).ts_ms ≡ now)
unfolding light_msg
light_msg_head value now = (refl, refl)

push-count :
    (cfg : Config) (c : Cache) (json : List ℕ) → 0 < c.count → 0 < (push cfg c json).1.count
unfolding push
push-count cfg c json waiting = ground arith

module _ {W : Type 0} (cfg : Config) (net : Net W) (ble : BleLink W) where
  -- A light message is uploaded as the text of its number and time.
  turn_uploads :
      (json_buf : List ℕ) (m : Msg) (c : Cache) (w : W)
      → length json_buf ≡ 128
      → m.topic ≡ sensor_light
      → value_int m < 2 ^ 32
      → m.ts_ms < 2 ^ 32
      → light_uploader_turn cfg net ble json_buf m c w
        ≡ upload_json cfg net ble (light_text (value_int m) m.ts_ms) c w
  unfolding light_uploader_turn
  turn_uploads json_buf m c w size topic fv ft = rw (
    json_encode_msg_light m json_buf 128 topic (omega arith),
    c_string-encoded m json_buf 128 fv ft (omega arith) (omega (arith, size)),
  )

  -- Whatever the light sensor measured, the uploader's task uploads or caches a text that decodes
  -- to the number that the first four characters of the message's JSON make, with the message's
  -- time: the encoder reads the number from the union that the JSON has overwritten. The task's
  -- buffer has 128 bytes and the time 32 bits.
  pub uploads_constant :
      (json_buf : List ℕ) (value now : ℕ) (c : Cache) (w : W)
      → length json_buf ≡ 128
      → now < 2 ^ 32
      → (json : List ℕ) × (light_uploader_turn cfg net ble json_buf (light_msg value now) c w
          ≡ upload_json cfg net ble json c w)
        × (decode_light json ≡ some (first_characters, now))
  uploads_constant json_buf value now c w size fits =
      let m = light_msg value now in
      let (topic, ts) = light_msg_head value now in
      let number = value_int_overwritten value now in
      (
        light_text (value_int m) m.ts_ms,
        turn_uploads json_buf m c w size topic (rw number (omega arith)) (rw ts fits),
        rw (number, ts) (decode_light-light_text first_characters now (omega arith) fits),
      )

  -- Without Wi-Fi and BLE, a light message is only pushed to the cache, as the text of its number
  -- and time.
  offline_turn :
      (json_buf : List ℕ) (m : Msg) (c : Cache) (w : W)
      → length json_buf ≡ 128
      → m.topic ≡ sensor_light
      → value_int m < 2 ^ 32
      → m.ts_ms < 2 ^ 32
      → net.is_connected w ≡ false
      → ble.is_connected w ≡ false
      → light_uploader_turn cfg net ble json_buf m c w
        ≡ some ((push cfg c (light_text (value_int m) m.ts_ms)).1, w)
  offline_turn json_buf m c w size topic fv ft off unlinked =
      turn_uploads json_buf m c w size topic fv ft ∙ rw (off, unlinked, off, unlinked)

  frame_turn_releases :
      (m : Msg) (bytes : List ℕ) (c : Cache) (w : W)
      → Ensures (λ r. r.0 ≡ released cfg net ble m) (frame_turn cfg net ble m bytes c w)
  frame_turn_releases m [] c w = refl
  frame_turn_releases m (b ∷ bytes) c w =
      let (success, w') = upload_frame cfg net ble (b ∷ bytes) w in
      Ensures-bind (λ r. Unit {0}) (λ r. r.0 ≡ released cfg net ble m)
        (λ (c', w''). some (released cfg net ble m, c', w''))
        (frame_retry cfg net ble (if success then c else (push_blob cfg c (b ∷ bytes)).1) w')
        (Ensures-any _) (λ a h. refl)

  -- A turn that ends releases its message once, if it has a release hook.
  released_once :
      (m : Msg) (c : Cache) (w : W)
      → Ensures (λ r. r.0 ≡ released cfg net ble m) (jpeg_uploader_turn cfg net ble m c w)
  unfolding jpeg_uploader_turn
  released_once m c w = elim (Bool-cases (jpeg_fb m == 0)) [
    | inl null' ↦ rw null' refl
    | inr at ↦ rw at (
        Ensures-bind (λ bs. Unit {0}) (λ r. r.0 ≡ released cfg net ble m)
          (λ bytes. frame_turn cfg net ble m bytes c w) (net.frame_at w (jpeg_fb m)) (Ensures-any _)
          (λ bs h. frame_turn_releases m bs c w))
  ]
