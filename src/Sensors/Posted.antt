-- ===== src/Sensors/Posted.antt =====
-- The way of a light sample: from the converter over the bus to the server.
use esp_mo_net.Base.{
  ◌++◌, refl, some, true, false, List, ℕ, ◌<◌, ◌≡◌, ◌^◌, c_string, replicate, length, arith, ◌≢◌,
  min, if◌then◌else◌, Option, ◌==◌, Bool,
}
use esp_mo_net.Bus.Shape.{IsValid}
use esp_mo_net.Uploader.{Net, http_sink_handler, leave}
use esp_mo_net.Sensors.{light_msg, sampled, Adc, LightState, light_turn, adc_hal_read}
use esp_mo_net.Message.{
  value_int, word_at_start-word_bytes, word_bytes, word_payload, word_at_start, sensor_light,
  sensor_jpeg,
}
use esp_mo_net.Codec.{light_text, json_encode_msg}
use esp_mo_net.Codec.Fit.{length-light_text, json_encode_msg_light, light_text-IsText}
use esp_mo_net.Format.Size.{c_string-snprintf}
use esp_mo_net.Rtos.{Rtos}
use esp_mo_net.Format.{snprintf}
use esp_mo_net.Cache.{Config, Cache, push}
use esp_mo_net.Bus.Delivery.{subscriptions, room, publish_delivers}
use esp_mo_net.Codec.Decode.{decode_light, decode_light-light_text}

length-word_payload : (v : ℕ) → length (word_payload v) ≡ 128
unfolding word_bytes
length-word_payload v = refl

-- The message carries the text that the encoder writes.
pub light_payload :
    (value now : ℕ)
    → value < 2 ^ 32
    → now < 2 ^ 32
    → c_string (light_msg value now).payload ≡ some (light_text value now)
unfolding light_msg
light_payload value now hv ht =
    let m = sampled value now in
    let whole : value_int m ≡ value = word_at_start-word_bytes value (replicate 124 0) hv in
    let fits : length (light_text value now) < 128 =
      omega (arith, length-light_text value now hv ht) in
    rw (json_encode_msg_light m m.payload 128 refl (omega arith), whole)
      (c_string-snprintf m.payload 128 (light_text value now) (light_text-IsText value now) fits
        (omega (arith, length-word_payload value)))

pub light_topic : (value now : ℕ) → (light_msg value now).topic ≡ sensor_light
unfolding light_msg
light_topic value now = refl

-- A text is posted and, where the post fails, pushed; then the cache is flushed.
abbrev pub posted : {V : Type 0} → Config → Net V → Cache → List ℕ → V → Option (Bool × Cache × V)
posted cfg net c text v =
    let (ok, v') = net.post_send text v in
    leave cfg net true ok (if ok then c else (push cfg c text).1) v'

sink_posts :
    {V : Type 0} (cfg : Config) (net : Net V) (c : Cache) (v : V) (value now : ℕ)
    → value < 2 ^ 32
    → now < 2 ^ 32
    → net.is_connected v ≡ true
    → http_sink_handler cfg net c v (light_msg value now)
      ≡ posted cfg net c (light_text value now) v
unfolding http_sink_handler light_text
sink_posts cfg net c v value now hv ht on =
    let other : ((light_msg value now).topic == sensor_jpeg) ≡ false = rw (light_topic value now) in
    rw (other, light_payload value now hv ht, on)

-- The number of a light message is that of the JSON's first four characters.
pub value_int_overwritten : (value now : ℕ) → value_int (light_msg value now) ≡ 0x7422207B
unfolding light_msg json_encode_msg light_text snprintf word_bytes word_at_start
value_int_overwritten value now = refl

module _ {W : Type 0} (adc : Adc W) (os : Rtos) where
  open os use {World, pending}

  -- What a turn of the light sensor's task puts into a queue.
  abbrev sample_of : ℕ → LightState adc os → ℕ
  sample_of chan_cfg st = (adc_hal_read adc chan_cfg st.driver).0

  -- On a bus of valid shape, a turn of the light sensor's task puts its message into a queue once
  -- for each of the queue's subscriptions, as far as there is room; the HTTP uploader's sink, with
  -- Wi-Fi, posts that message's text, pushes it to the cache if the post fails, and flushes; and
  -- the text decodes to the sample and its time. Sample and time have 32 bits, and the queue's
  -- handle is not NULL.
  pub sample_posted :
      {V : Type 0} (cfg : Config) (net : Net V) (c : Cache) (v : V) (st : LightState adc os)
      (chan_cfg now h : ℕ)
      → IsValid st.bus
      → h ≢ 0
      → sample_of chan_cfg st < 2 ^ 32
      → now < 2 ^ 32
      → net.is_connected v ≡ true
      → (pending (light_turn adc os chan_cfg now st).world h
          ≡ pending st.world h
            ++ replicate
                (min (subscriptions st.bus sensor_light h) (room os st.world h))
                (light_msg (sample_of chan_cfg st) now))
        × (http_sink_handler cfg net c v (light_msg (sample_of chan_cfg st) now)
            ≡ posted cfg net c (light_text (sample_of chan_cfg st) now) v)
        × (decode_light (light_text (sample_of chan_cfg st) now)
            ≡ some (sample_of chan_cfg st, now))
  unfolding light_turn
  sample_posted cfg net c v st chan_cfg now h valid nz hv ht on =
      let m = light_msg (sample_of chan_cfg st) now in
      (
        publish_delivers os st.bus m st.world h valid nz,
        sink_posts cfg net c v (sample_of chan_cfg st) now hv ht on,
        decode_light-light_text (sample_of chan_cfg st) now hv ht,
      )
