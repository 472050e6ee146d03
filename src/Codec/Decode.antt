-- ===== src/Codec/Decode.antt =====
-- A reader of the light sample's JSON, written from its format, and what it gets from the encoder's text.
use esp_mo_net.Base.{
  ◌++◌, refl, none, some, List, ℕ, Option, ◌>>=◌, ◌≡◌, ◌<◌, if◌then◌else◌, ◌^◌, length, ◌==◌,
}
use esp_mo_net.Format.{codes, decimal_u32, decimal_i32}
use esp_mo_net.Format.Digits.{scan}
use esp_mo_net.Format.Read.{
  strip, EndsNumber, scan_i32, strip-append, scan_i32-decimal_i32, scan-decimal_u32,
}
use esp_mo_net.Codec.{light_text}

-- The closing part, with nothing behind it.
abbrev pub closed : ℕ → ℕ × List ℕ → Option (ℕ × ℕ)
closed value (ts, rest) =
    strip (codes " }") rest >>= λ end. if length end == 0 then some (value, ts) else none

-- The value's pattern and the time stamp.
unfoldable pub decode_light : List ℕ → Option (ℕ × ℕ)
decode_light text = strip (codes "{ \"type\": \"light\", \"value\": ") text >>= λ s.
    let (value, s₁) = scan_i32 s in strip (codes ", \"ts\": ") s₁ >>= λ s₂. closed value (scan s₂ 0)

-- What follows the value, and what follows the time stamp.
abbrev from_ts : ℕ → List ℕ
from_ts ts = codes ", \"ts\": " ++ (decimal_u32 ts ++ codes " }")

from_ts-EndsNumber : (ts : ℕ) → EndsNumber (from_ts ts)
unfolding scan
from_ts-EndsNumber ts n = refl

end-EndsNumber : EndsNumber (codes " }")
unfolding scan
end-EndsNumber n = refl

closed_end : (value ts : ℕ) → closed value (ts, codes " }") ≡ some (value, ts)
unfolding strip
closed_end value ts = refl

pub decode_light-light_text :
    (value ts : ℕ)
    → value < 2 ^ 32
    → ts < 2 ^ 32
    → decode_light (light_text value ts) ≡ some (value, ts)
unfolding decode_light light_text
decode_light-light_text value ts hv ht =
    rw
      (
        strip-append (codes "{ \"type\": \"light\", \"value\": ") (decimal_i32 value ++ from_ts ts),
        scan_i32-decimal_i32 value (from_ts ts) hv (from_ts-EndsNumber ts),
        strip-append (codes ", \"ts\": ") (decimal_u32 ts ++ codes " }"),
        scan-decimal_u32 ts (codes " }") ht end-EndsNumber,
      )
      (closed_end value ts)
