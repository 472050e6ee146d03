-- ===== src/Sensors.antt =====
-- The sensors: components/monet_hal/src/adc_hal.c and dht22_hal.c, and the services over them,
-- components/service/src/light_sensor_service.c and dht22_service.c. A task's loop is one function per turn.
pub mod Climate
pub mod Posted
mod Tests
use esp_mo_net.Base.{
  [], ◌∷◌, ◌++◌, refl, zero, suc, none, some, true, false, List, ℕ, ◌^◌, if◌then◌else◌, Option, ◌-◌,
  leb,
}
use esp_mo_net.Service.{ServiceDesc, publisher}
use esp_mo_net.Bus.{Bus, publish}
use esp_mo_net.Message.{Msg, sensor_light, word_payload, union_size}
use esp_mo_net.Rtos.{Rtos}
use esp_mo_net.Codec.{json_encode_msg}

-- The converter's driver (`adc1_config_width`, `adc1_config_channel_atten`, `adc1_get_raw`); an `int` is
-- its 32-bit pattern.
pub record Adc (W : Type 0) : Type 0 where
  pub config_width : W → W
  pub config_channel_atten : W → ℕ → W
  pub get_raw : W → ℕ → ℕ × W

-- `ADC1_CHANNEL_MAX`, behind the ten channels
abbrev pub adc1_channel_max : ℕ
adc1_channel_max = 10

abbrev pub int_minus_one : ℕ
int_minus_one = 2 ^ 32 - 1

unfoldable pub resolve_adc_channel : ℕ → ℕ
resolve_adc_channel chan_cfg = if leb chan_cfg 9 then chan_cfg else adc1_channel_max

module _ {W : Type 0} (adc : Adc W) where
  unfoldable pub adc_hal_init : ℕ → W → W
  adc_hal_init chan_cfg w =
      let channel = resolve_adc_channel chan_cfg in
      if leb adc1_channel_max channel
      then w
      else adc.config_channel_atten (adc.config_width w) channel

  unfoldable pub adc_hal_read : ℕ → W → ℕ × W
  adc_hal_read chan_cfg w =
      let channel = resolve_adc_channel chan_cfg in
      if leb adc1_channel_max channel then (int_minus_one, w) else adc.get_raw w channel

-- The message of a light sample: the value first, then the encoder's text over the same bytes.
abbrev pub sampled : ℕ → ℕ → Msg
sampled value now = record {
  topic = sensor_light;
  ts_ms = now;
  payload = word_payload value;
  release = none;
}

-- The buffer is the message's own union; the call's result is not used.
abbrev payload_or : List ℕ → Option (List ℕ) → List ℕ
payload_or old none = old
payload_or old (some new) = new

unfoldable pub light_msg : ℕ → ℕ → Msg
light_msg value now =
    let m = sampled value now in
    record m {
      payload = payload_or m.payload (json_encode_msg (some m) (some m.payload) union_size).1;
    }

module _ {W : Type 0} (adc : Adc W) (os : Rtos) where
  open os use {World}

  -- `s_latest_adc`, and what the task works on.
  pub record LightState : Type 0 where
    pub latest_adc : ℕ
    pub driver : W
    pub bus : Bus
    pub world : World

  -- A turn of `light_sensor_task`; the log of the threshold is left out.
  unfoldable pub light_turn : ℕ → ℕ → LightState → LightState
  unfolding light_msg adc_hal_read
  light_turn chan_cfg now st =
      let (value, driver') = adc_hal_read adc chan_cfg st.driver in
      let (bus', world') = publish os st.bus (some (light_msg value now)) st.world in
      record { latest_adc = value; driver = driver'; bus = bus'; world = world' }

  -- `light_sensor_get_cached_value`
  abbrev cached_value : LightState → ℕ
  cached_value st = st.latest_adc

-- The descriptor; `task` is the address of `light_sensor_task`.
abbrev pub light_sensor_desc : ℕ → ServiceDesc
light_sensor_desc task = record {
  name = some "light_sensor_service";
  task_fn = task;
  task_name = some "light_sensor_task";
  stack_size = 4096;
  priority = 5;
  role = publisher;
  topics = none;
  sink_cb = 0;
}
