-- ===== src/Format.antt =====
-- The conversions of `printf` that the sources use: `%d`, `%ld` and `%" PRIu32 "` on 32 bits, `%.2f` on a
-- `float`, and the truncation of `snprintf`. They are the C library's, as its standard documents them.
pub mod Digits
pub mod Size
pub mod Read
use Prim.Native.Char.{code}
use Prim.Native.String.{String}
use esp_mo_net.Base.{
  [], ◌∷◌, ◌++◌, refl, zero, suc, none, some, true, false, List, ℕ, ◌/◌, if◌then◌else◌, overwrite,
  ◌+◌, ltb, ◌*◌, ◌^◌, ◌==◌, take, ◌%◌, ◌-◌,
}

-- The code points of a literal: its bytes, as it is ASCII. `String` has its own `[]` and `∷`.
abbrev pub codes : String → List ℕ
codes String.[] = []
codes (String.◌∷◌ c s) = code c ∷ codes s

-- The decimal digits of `n` in front of `out`, in at most `rounds` rounds.
unfoldable pub digits : ℕ → ℕ → List ℕ → List ℕ
digits zero n out = out
digits (suc rounds) n out =
    let rest = digits rounds (n / 10) ((b'0' + n % 10) ∷ out) in
    if ltb n 10 then (b'0' + n) ∷ out else rest

-- `%u` of a `uint32_t`
abbrev pub decimal_u32 : ℕ → List ℕ
decimal_u32 n = digits 10 n []

-- `%d` of an `int32_t` given by its bit pattern
unfoldable pub decimal_i32 : ℕ → List ℕ
decimal_i32 v = if ltb v (2 ^ 31) then decimal_u32 v else b'-' ∷ decimal_u32 (2 ^ 32 - v)

-- Division rounded to nearest, a tie to the even side.
unfoldable pub round_div : ℕ → ℕ → ℕ
round_div n d =
    let q = n / d in
    let twice = 2 * (n % d) in if ltb twice d then q else if ltb d twice then suc q else q + q % 2

-- The significand of a `float` with its hidden bit, and its exponent field, 1 for a subnormal.
abbrev pub exponent_field : ℕ → ℕ
exponent_field bits = (bits / 2 ^ 23) % 256

abbrev significand : ℕ → ℕ
significand bits = if exponent_field bits == 0 then bits % 2 ^ 23 else bits % 2 ^ 23 + 2 ^ 23

-- The magnitude in hundredths: the value is significand · 2 ^ (field - 150).
unfoldable pub hundredths : ℕ → ℕ
hundredths bits =
    let e = if exponent_field bits == 0 then 1 else exponent_field bits in
    if ltb e 150
    then round_div (significand bits * 100) (2 ^ (150 - e))
    else significand bits * 100 * 2 ^ (e - 150)

-- Two decimals; a `float` is below 10 ^ 39.
unfoldable pub decimal_hundredths : ℕ → List ℕ
decimal_hundredths h = digits 39 (h / 100) (b'.' ∷ (b'0' + (h / 10) % 10) ∷ (b'0' + h % 10) ∷ [])

abbrev sign_text : ℕ → List ℕ
sign_text bits = if ltb bits (2 ^ 31) then [] else b'-' ∷ []

-- `%.2f` of a `float` given by its bit pattern
unfoldable pub decimal_float : ℕ → List ℕ
decimal_float bits =
    sign_text bits
    ++ (if exponent_field bits == 255
        then (if bits % 2 ^ 23 == 0 then codes "inf" else codes "nan")
        else decimal_hundredths (hundredths bits))

-- `snprintf(buf, size, …)` where the conversions give `text`: what does not fit is cut, and a NUL ends it.
unfoldable pub snprintf : List ℕ → ℕ → List ℕ → List ℕ
snprintf buf zero text = buf
snprintf buf (suc room) text = overwrite (take room text ++ 0 ∷ []) buf
