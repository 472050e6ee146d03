-- ===== src/Message.antt =====
-- components/monet_core/include/monet_core/msg_bus.h: topics and messages.
use esp_mo_net.Base.{
  [], ◌∷◌, ◌++◌, ℕ, List, Option, ◌%◌, ◌+◌, replicate, ◌<◌, ◌/◌, ◌*◌, ◌^◌, ◌≡◌, arith, drop,
}

-- `msg_topic_t`: the enumeration's values.
abbrev pub sensor_temp : ℕ
sensor_temp = 0

abbrev pub sensor_light : ℕ
sensor_light = 1

abbrev pub sensor_uart : ℕ
sensor_uart = 2

abbrev pub sensor_jpeg : ℕ
sensor_jpeg = 3

abbrev pub sensor_max : ℕ
sensor_max = 4

abbrev pub group_sensor : ℕ
group_sensor = 0x1000

-- The functions that a message's `release` may point to.
pub data ReleaseHook : Type 0 where
  release_camera_frame : ReleaseHook

-- `msg_t`. The union `data` is its 128 bytes, the size of its largest member `json`.
pub record Msg : Type 0 where
  pub topic : ℕ
  pub ts_ms : ℕ
  pub payload : List ℕ
  pub release : Option ReleaseHook

abbrev pub union_size : ℕ
union_size = 128

-- A 32-bit word as it stands in memory, low byte first.
unfoldable pub word_bytes : ℕ → List ℕ
word_bytes v = v % 256 ∷ (v / 2 ^ 8) % 256 ∷ (v / 2 ^ 16) % 256 ∷ (v / 2 ^ 24) % 256 ∷ []

unfoldable pub word_at_start : List ℕ → ℕ
word_at_start (a ∷ b ∷ c ∷ d ∷ rest) = a + b * 2 ^ 8 + c * 2 ^ 16 + d * 2 ^ 24
word_at_start bytes = 0

-- `data.value_int`, as the bit pattern of the `int32_t`.
abbrev pub value_int : Msg → ℕ
value_int m = word_at_start m.payload

-- `data.jpeg.fb`: a pointer has 32 bits.
abbrev pub jpeg_fb : Msg → ℕ
jpeg_fb m = word_at_start m.payload

-- `data.temp_hum`: the bit patterns of its two `float`s.
abbrev pub temperature : Msg → ℕ
temperature m = word_at_start m.payload

abbrev pub humidity : Msg → ℕ
humidity m = word_at_start (drop 4 m.payload)

-- A union whose first four bytes are set, the others being zero.
abbrev pub word_payload : ℕ → List ℕ
word_payload v = word_bytes v ++ replicate 124 0

pub word_at_start-word_bytes :
    (v : ℕ) (rest : List ℕ) → v < 2 ^ 32 → word_at_start (word_bytes v ++ rest) ≡ v
unfolding word_at_start word_bytes
word_at_start-word_bytes v rest h = omega arith
