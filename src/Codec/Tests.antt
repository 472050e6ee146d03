-- ===== src/Codec/Tests.antt =====
-- The encoder at concrete messages.
use esp_mo_net.Base.{refl, none, some, true, List, ℕ, replicate, ◌≡◌, c_string, ◌>>=◌, arith}
use esp_mo_net.Message.{Msg, word_bytes, sensor_light, word_at_start, word_payload}
use esp_mo_net.Codec.{light_text, temp_text, json_encode_msg}
use esp_mo_net.Format.{
  decimal_float, decimal_i32, hundredths, digits, round_div, decimal_hundredths, codes,
}
use esp_mo_net.Codec.Fit.{encoded, json_round_trip}
use esp_mo_net.Codec.Decode.{decode_light}

abbrev light_sample : Msg
light_sample = record {
  topic = sensor_light;
  ts_ms = 4294967295;
  payload = word_payload 4294967295;
  release = none;
}

abbrev buffer : List ℕ
buffer = replicate 128 0xAA

light_text_minus_one :
    light_text 4294967295 4294967295
    ≡ codes "{ \"type\": \"light\", \"value\": -1, \"ts\": 4294967295 }"
unfolding light_text decimal_i32 digits
light_text_minus_one = refl

-- 25 degrees, -0.125 (a tie, to the even side) and 1/3.
temp_texts :
    (decimal_float 0x41C80000 ≡ codes "25.00")
    × (decimal_float 0xBE000000 ≡ codes "-0.12")
    × (decimal_float 0x3EAAAAAB ≡ codes "0.33")
    × (decimal_float 0xFF800000 ≡ codes "-inf")
    × (decimal_float 0x00000001 ≡ codes "0.00")
    × (decimal_float 0x4CEB79A3 ≡ codes "123456792.00")
unfolding decimal_float hundredths round_div decimal_hundredths digits
temp_texts = (refl, refl, refl, refl, refl, refl)

temp_text_stub :
    temp_text 0x41C80000 0x42480000 7
    ≡ codes "{ \"type\": \"temp\", \"temperature\": 25.00, \"humidity\": 50.00, \"ts\": 7 }"
unfolding temp_text decimal_float hundredths round_div decimal_hundredths digits
temp_text_stub = refl

json_round_trip_example :
    (json_encode_msg (some light_sample) (some buffer) 128
      ≡ (true, some (encoded light_sample buffer 128)))
    × ((c_string (encoded light_sample buffer 128) >>= decode_light)
        ≡ some (4294967295, 4294967295))
unfolding word_bytes word_at_start
json_round_trip_example =
    json_round_trip light_sample buffer 128 refl (omega arith) (omega arith) (omega arith)
      (omega arith)
