-- ===== src/Codec/Fit.antt =====
-- The texts of the encoder in a message's buffer.
use esp_mo_net.Base.{
  [], ◌++◌, refl, some, true, false, List, ℕ, IsText, ◌<◌, ◌^◌, length, ◌≤◌, arith, length-append,
  ◌≡◌, Bool-cases, if◌then◌else◌, ◌==◌, inl, c_string, inr, ◌>>=◌, ltb, ◌%◌, ◌/◌,
}
use esp_mo_net.Codec.{light_text, json_encode_msg, temp_text, build_light_sensor_json}
use esp_mo_net.Format.{
  decimal_i32, codes, decimal_u32, snprintf, decimal_float, decimal_hundredths, hundredths,
  exponent_field,
}
use esp_mo_net.Format.Size.{
  length-decimal_i32, length-decimal_u32, append-IsText, decimal_i32-IsText, c_string-snprintf,
  length-digits, no_nul, no_nul-IsText,
}
use esp_mo_net.Message.{Msg, sensor_light, value_int}
use esp_mo_net.Format.Digits.{digits-IsText}
use esp_mo_net.Codec.Decode.{decode_light, decode_light-light_text}

ts_tail-IsText : (ts : ℕ) → IsText (codes ", \"ts\": " ++ (decimal_u32 ts ++ codes " }"))
unfolding no_nul
ts_tail-IsText ts =
    append-IsText (codes ", \"ts\": ") (decimal_u32 ts ++ codes " }")
      (no_nul-IsText (codes ", \"ts\": ") refl)
      (append-IsText (decimal_u32 ts) (codes " }") (digits-IsText 10 ts [] tt)
        (no_nul-IsText (codes " }") refl))

pub light_text-IsText : (value ts : ℕ) → IsText (light_text value ts)
unfolding light_text no_nul
light_text-IsText value ts =
    append-IsText (codes "{ \"type\": \"light\", \"value\": ")
      (decimal_i32 value ++ (codes ", \"ts\": " ++ (decimal_u32 ts ++ codes " }")))
      (no_nul-IsText (codes "{ \"type\": \"light\", \"value\": ") refl)
      (append-IsText (decimal_i32 value) (codes ", \"ts\": " ++ (decimal_u32 ts ++ codes " }"))
        (decimal_i32-IsText value) (ts_tail-IsText ts))

pub length-light_text :
    (value ts : ℕ) → value < 2 ^ 32 → ts < 2 ^ 32 → length (light_text value ts) ≤ 60
unfolding light_text
length-light_text value ts hv ht = omega (
  arith,
  length-append (decimal_i32 value) (codes ", \"ts\": " ++ (decimal_u32 ts ++ codes " }")),
  length-append (decimal_u32 ts) (codes " }"),
  length-decimal_i32 value hv,
  length-decimal_u32 ts ht,
)

-- The text behind the sign.
abbrev magnitude_text : ℕ → List ℕ
magnitude_text bits =
    if exponent_field bits == 255
    then (if bits % 2 ^ 23 == 0 then codes "inf" else codes "nan")
    else decimal_hundredths (hundredths bits)

-- A finite number below 10 ^ 26, or one that is none.
length-magnitude_text : (bits : ℕ) → hundredths bits < 10 ^ 28 → length (magnitude_text bits) ≤ 29
unfolding decimal_hundredths
length-magnitude_text bits h = elim (Bool-cases (exponent_field bits == 255)) [
  | inl e ↦ rw e (elim (Bool-cases (bits % 2 ^ 23 == 0)) [
    | inl f ↦ rw f (omega arith)
    | inr f ↦ rw f (omega arith)
  ])
  | inr e ↦ rw e (length-digits 39 25 (hundredths bits / 100) _ (omega (arith, h)))
]

magnitude_text-IsText : (bits : ℕ) → IsText (magnitude_text bits)
unfolding decimal_hundredths no_nul
magnitude_text-IsText bits = elim (Bool-cases (exponent_field bits == 255)) [
  | inl e ↦ rw e (elim (Bool-cases (bits % 2 ^ 23 == 0)) [
    | inl f ↦ rw f (no_nul-IsText (codes "inf") refl)
    | inr f ↦ rw f (no_nul-IsText (codes "nan") refl)
  ])
  | inr e ↦
      rw e
        (digits-IsText 39 (hundredths bits / 100) _ (omega arith, (omega arith, (omega arith, tt))))
]

length-decimal_float : (bits : ℕ) → hundredths bits < 10 ^ 28 → length (decimal_float bits) ≤ 30
unfolding decimal_float
length-decimal_float bits h = elim (Bool-cases (ltb bits (2 ^ 31))) [
  | inl e ↦ rw e (omega (arith, length-magnitude_text bits h))
  | inr e ↦ rw e (omega (arith, length-magnitude_text bits h))
]

decimal_float-IsText : (bits : ℕ) → IsText (decimal_float bits)
unfolding decimal_float
decimal_float-IsText bits = elim (Bool-cases (ltb bits (2 ^ 31))) [
  | inl e ↦ rw e (magnitude_text-IsText bits)
  | inr e ↦ rw e (omega arith, magnitude_text-IsText bits)
]

pub length-temp_text :
    (t h ts : ℕ)
    → hundredths t < 10 ^ 28
    → hundredths h < 10 ^ 28
    → ts < 2 ^ 32
    → length (temp_text t h ts) ≤ 127
unfolding temp_text
length-temp_text t h ts small_t small_h bound =
    let tail = codes ", \"ts\": " ++ (decimal_u32 ts ++ codes " }") in
    omega (
      arith,
      length-append (decimal_float t) (codes ", \"humidity\": " ++ (decimal_float h ++ tail)),
      length-append (decimal_float h) tail,
      length-append (decimal_u32 ts) (codes " }"),
      length-decimal_float t small_t,
      length-decimal_float h small_h,
      length-decimal_u32 ts bound,
    )

pub temp_text-IsText : (t h ts : ℕ) → IsText (temp_text t h ts)
unfolding temp_text no_nul
temp_text-IsText t h ts =
    let tail = codes ", \"ts\": " ++ (decimal_u32 ts ++ codes " }") in
    let rest = codes ", \"humidity\": " ++ (decimal_float h ++ tail) in
    append-IsText (codes "{ \"type\": \"temp\", \"temperature\": ") (decimal_float t ++ rest)
      (no_nul-IsText (codes "{ \"type\": \"temp\", \"temperature\": ") refl)
      (append-IsText (decimal_float t) rest (decimal_float-IsText t) (
        append-IsText (codes ", \"humidity\": ") (decimal_float h ++ tail)
          (no_nul-IsText (codes ", \"humidity\": ") refl)
          (append-IsText (decimal_float h) tail (decimal_float-IsText h) (ts_tail-IsText ts))))

-- What the encoder leaves in a buffer for a light sample.
abbrev pub encoded : Msg → List ℕ → ℕ → List ℕ
encoded m buf size = snprintf buf size (light_text (value_int m) m.ts_ms)

pub json_encode_msg_light :
    (m : Msg) (buf : List ℕ) (size : ℕ)
    → m.topic ≡ sensor_light
    → 0 < size
    → json_encode_msg (some m) (some buf) size ≡ (true, some (encoded m buf size))
unfolding json_encode_msg
json_encode_msg_light m buf size e pos =
    let nz : (size == 0) ≡ false = ground arith in
    let light : (m.topic == sensor_light) ≡ true = ground arith in rw (nz, light)

-- The text fits, whatever the sample.
pub c_string-encoded :
    (m : Msg) (buf : List ℕ) (size : ℕ)
    → value_int m < 2 ^ 32
    → m.ts_ms < 2 ^ 32
    → 60 < size
    → size ≤ length buf
    → c_string (encoded m buf size) ≡ some (light_text (value_int m) m.ts_ms)
c_string-encoded m buf size hv ht big room =
    c_string-snprintf buf size (light_text (value_int m) m.ts_ms)
      (light_text-IsText (value_int m) m.ts_ms)
      (omega (arith, length-light_text (value_int m) m.ts_ms hv ht)) room

-- A light message whose number and time have 32 bits is encoded into a buffer of more than 60
-- bytes with the answer true, and the string in the buffer decodes to the number and the time, so
-- it is not cut.
pub json_round_trip :
    (m : Msg) (buf : List ℕ) (size : ℕ)
    → m.topic ≡ sensor_light
    → value_int m < 2 ^ 32
    → m.ts_ms < 2 ^ 32
    → 60 < size
    → size ≤ length buf
    → (json_encode_msg (some m) (some buf) size ≡ (true, some (encoded m buf size)))
      × ((c_string (encoded m buf size) >>= decode_light) ≡ some (value_int m, m.ts_ms))
json_round_trip m buf size e hv ht big room = (
  json_encode_msg_light m buf size e (omega arith),
  rw (c_string-encoded m buf size hv ht big room)
      (decode_light-light_text (value_int m) m.ts_ms hv ht),
)

-- For a light message and a buffer of any size but zero, json_utils_build_light_sensor_json writes
-- what json_encode_msg writes, which answers true.
pub builders_agree :
    (m : Msg) (buf : List ℕ) (size : ℕ)
    → m.topic ≡ sensor_light
    → 0 < size
    → json_encode_msg (some m) (some buf) size
      ≡ (true, some (build_light_sensor_json buf size (value_int m) m.ts_ms))
unfolding build_light_sensor_json
builders_agree m buf size e pos = json_encode_msg_light m buf size e pos
