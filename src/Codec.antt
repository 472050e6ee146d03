-- ===== src/Codec.antt =====
-- components/monet_codec/src/json_encoder.c and components/utils/src/json_utils.c: messages as JSON texts.
pub mod Decode
pub mod Fit
mod Tests
use esp_mo_net.Base.{
  [], ◌∷◌, ◌++◌, refl, zero, suc, none, some, true, false, List, ℕ, Option, Bool, ◌+◌,
  if◌then◌else◌, ◌%◌, ◌==◌, ◌^◌, ◌-◌,
}
use esp_mo_net.Format.{codes, snprintf, decimal_i32, decimal_float, decimal_u32}
use esp_mo_net.Message.{Msg, sensor_light, value_int, sensor_temp, temperature, humidity}

-- The text of a light sample: the value as its 32-bit pattern, the time stamp.
unfoldable pub light_text : ℕ → ℕ → List ℕ
light_text value ts =
    codes "{ \"type\": \"light\", \"value\": "
    ++ (decimal_i32 value ++ (codes ", \"ts\": " ++ (decimal_u32 ts ++ codes " }")))

-- The text of a climate sample: two `float` patterns, the time stamp.
unfoldable pub temp_text : ℕ → ℕ → ℕ → List ℕ
temp_text temperature humidity ts =
    codes "{ \"type\": \"temp\", \"temperature\": "
    ++ (decimal_float temperature
        ++ (codes ", \"humidity\": "
            ++ (decimal_float humidity ++ (codes ", \"ts\": " ++ (decimal_u32 ts ++ codes " }")))))

unfoldable pub unknown_text : ℕ → ℕ → List ℕ
unknown_text topic ts =
    codes "{ \"type\": \"unknown\", \"topic\": "
    ++ (decimal_i32 topic ++ (codes ", \"ts\": " ++ (decimal_u32 ts ++ codes " }")))

-- `json_encode_msg`; NULL pointers are `none`, the buffer comes back as the call leaves it.
unfoldable pub json_encode_msg : Option Msg → Option (List ℕ) → ℕ → Bool × Option (List ℕ)
json_encode_msg none out_buf buf_size = (false, out_buf)
json_encode_msg (some m) none buf_size = (false, none)
json_encode_msg (some m) (some out_buf) buf_size =
    let put = λ (text : List ℕ). some (snprintf out_buf buf_size text) in
    if buf_size == 0
    then (false, some out_buf)
    else if m.topic == sensor_light
    then (true, put (light_text (value_int m) m.ts_ms))
    else if m.topic == sensor_temp
    then (true, put (temp_text (temperature m) (humidity m) m.ts_ms))
    else (false, put (unknown_text m.topic m.ts_ms))

-- `json_utils_build_light_sensor_json`
unfoldable pub build_light_sensor_json : List ℕ → ℕ → ℕ → ℕ → List ℕ
build_light_sensor_json out_buf buf_size light_val timestamp =
    snprintf out_buf buf_size (light_text light_val timestamp)

abbrev json_buf_size : ℕ
json_buf_size = 256

-- `build_json_payload`: `time_str` is what `strftime` wrote, `counter` counts the calls; `none` is the
-- overflow of the `int`.
unfoldable build_json_payload : List ℕ → List ℕ → List ℕ → ℕ → Option (List ℕ × ℕ)
build_json_payload json_buf time_str uart_data counter =
    let text =
      codes "{\"esp32\": \""
      ++ (time_str
          ++ (codes "\", \"uart_data\": \""
              ++ (uart_data ++ (codes "\", \"hello\": " ++ (decimal_i32 counter ++ codes "}"))))) in
    if counter == 2 ^ 31 - 1
    then none
    else some (snprintf json_buf json_buf_size text, (counter + 1) % 2 ^ 32)
