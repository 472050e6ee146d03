-- ===== src/Sensors/Climate.antt =====
-- components/monet_hal/src/dht22_hal.c and components/service/src/dht22_service.c: the climate sensor. A
-- `float` is its 32-bit pattern.
use esp_mo_net.Base.{
  [], ◌∷◌, ◌++◌, refl, none, some, true, false, List, ℕ, Bool, Option, if◌then◌else◌, c_string, ◌<◌,
  replicate, ◌^◌, ◌%◌, ◌≡◌, ◌≤◌, length, arith,
}
use esp_mo_net.Service.{ServiceDesc, publisher}
use esp_mo_net.Bus.{Bus, publish}
use esp_mo_net.Uploader.{Net, http_sink_handler, leave}
use esp_mo_net.Message.{
  Msg, word_bytes, sensor_temp, temperature, humidity, word_at_start-word_bytes,
}
use esp_mo_net.Rtos.{Rtos}
use esp_mo_net.Cache.{Config, Cache}
use esp_mo_net.Codec.{json_encode_msg, temp_text}
use esp_mo_net.Format.{hundredths, snprintf}
use esp_mo_net.Format.Size.{c_string-snprintf}
use esp_mo_net.Codec.Fit.{temp_text-IsText, length-temp_text}

-- `dht22_hal_init`, a stub that returns ESP_OK
unfoldable dht22_hal_init : Bool
dht22_hal_init = true

-- `dht22_hal_read`, a stub: 25.0 degrees and 50.0 percent, with ESP_OK
unfoldable dht22_hal_read : Option (ℕ × ℕ)
dht22_hal_read = some (0x41C80000, 0x42480000)

-- The message; what the initialiser does not name is zero.
abbrev pub climate_msg : ℕ → ℕ → ℕ → Msg
climate_msg t h now = record {
  topic = sensor_temp;
  ts_ms = now;
  payload = word_bytes t ++ (word_bytes h ++ replicate 120 0);
  release = none;
}

module _ (os : Rtos) where
  open os use {World}

  -- A turn of `dht22_task` with what the read gave.
  unfoldable dht22_turn : Option (ℕ × ℕ) → ℕ → Bus → World → Bus × World
  dht22_turn none now bus w = (bus, w)
  dht22_turn (some (t, h)) now bus w = publish os bus (some (climate_msg t h now)) w

  -- `dht22_task`, with the times of its turns: a failed initialisation ends it.
  unfoldable pub dht22_task : List ℕ → Bus → World → Bus × World
  unfolding dht22_turn dht22_hal_init dht22_hal_read
  dht22_task times bus w = if dht22_hal_init then turns times bus w else (bus, w)
    where
      turns : List ℕ → Bus → World → Bus × World
      turns [] bus w = (bus, w)
      turns (now ∷ times) bus w =
          let (bus', w') = dht22_turn dht22_hal_read now bus w in turns times bus' w'

-- The descriptor; `task` is the address of `dht22_task`.
abbrev dht22_service_desc : ℕ → ServiceDesc
dht22_service_desc task = record {
  name = some "dht22_service";
  task_fn = task;
  task_name = some "dht22_task";
  stack_size = 4096;
  priority = 5;
  role = publisher;
  topics = none;
  sink_cb = 0;
}

-- The uploader's sink throws a climate message out whose first byte is zero.
climate_dropped :
    {W : Type 0} (cfg : Config) (net : Net W) (c : Cache) (w : W) (t h now : ℕ)
    → t % 256 ≡ 0
    → http_sink_handler cfg net c w (climate_msg t h now)
      ≡ leave cfg net (net.is_connected w) false c w
unfolding http_sink_handler word_bytes c_string
climate_dropped cfg net c w t h now even = rw even

climate_floats :
    (t h now : ℕ)
    → t < 2 ^ 32
    → h < 2 ^ 32
    → (temperature (climate_msg t h now) ≡ t) × (humidity (climate_msg t h now) ≡ h)
unfolding word_bytes
climate_floats t h now bt bh = (
  word_at_start-word_bytes t (word_bytes h ++ replicate 120 0) bt,
  word_at_start-word_bytes h (replicate 120 0) bh,
)

-- A climate message of temperatures and humidities below 10 ^ 26 is encoded into 128 bytes
-- without a cut.
climate_encodes :
    (t h now : ℕ) (buf : List ℕ)
    → t < 2 ^ 32
    → h < 2 ^ 32
    → now < 2 ^ 32
    → hundredths t < 10 ^ 28
    → hundredths h < 10 ^ 28
    → 128 ≤ length buf
    → (out : List ℕ) × (json_encode_msg (some (climate_msg t h now)) (some buf) 128
        ≡ (true, some out))
      × (c_string out ≡ some (temp_text t h now))
unfolding json_encode_msg
climate_encodes t h now buf bt bh bn small_t small_h room =
    let (et, eh) = climate_floats t h now bt bh in
    (
      snprintf buf 128 (temp_text t h now),
      rw (et, eh) refl,
      c_string-snprintf buf 128 (temp_text t h now) (temp_text-IsText t h now)
          (omega (arith, length-temp_text t h now small_t small_h bn)) room,
    )
