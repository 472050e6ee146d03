-- ===== src/Server/Answers.antt =====
-- The answers of server/src/handlers/status_handler.c and server/src/handlers/sha256_handler.c. The hash is
-- OpenSSL's and the clock the system's: parameters.
use esp_mo_net.Base.{
  [], ◌∷◌, ◌++◌, refl, none, some, List, ℕ, if◌then◌else◌, Option, ◌/◌, ◌*◌, ◌<◌, All, IsText,
  length, ltb, c_string, ◌%◌, ◌+◌, ◌≡◌, ◌≢◌, ◌^◌, ◌-◌, arith, ap, ◌≤◌, Bool-cases, inl,
  length-append, ltb→lt, inr,
}
use esp_mo_net.Format.{codes, snprintf, digits}
use esp_mo_net.Format.Size.{c_string-snprintf, append-IsText, no_nul, no_nul-IsText, length-digits}
use esp_mo_net.Format.Digits.{digits-IsText}

abbrev json_headers : List ℕ
json_headers =
    codes "HTTP/1.1 200 OK\r\nContent-Type: application/json\r\nConnection: close\r\n\r\n"

-- `%ld` of a `long` given by its 64-bit pattern
unfoldable pub decimal_i64 : ℕ → List ℕ
decimal_i64 v = if ltb v (2 ^ 63) then digits 20 v [] else b'-' ∷ digits 20 (2 ^ 64 - v) []

unfoldable pub status_text : ℕ → List ℕ
status_text uptime = json_headers ++ (codes "{\"uptime\": " ++ (decimal_i64 uptime ++ codes "}"))

-- `status_handler`: what `SSL_write` is given; `none` if no NUL ended the buffer.
unfoldable pub status_handler : List ℕ → ℕ → Option (List ℕ)
status_handler body uptime = c_string (snprintf body 128 (status_text uptime))

-- `%02x`
abbrev hex_digit : ℕ → ℕ
hex_digit d = if ltb d 10 then b'0' + d else b'a' + (d - 10)

-- The loop over the hash.
unfoldable hex : List ℕ → List ℕ
hex [] = []
hex (b ∷ hash) = hex_digit (b / 16) ∷ hex_digit (b % 16) ∷ hex hash

-- The body: the hash of the firmware, `none` where the file cannot be opened.
abbrev sha256_body : (List ℕ → List ℕ) → Option (List ℕ) → List ℕ
sha256_body sha256 none = codes "{\"error\": \"firmware not found\"}"
sha256_body sha256 (some firmware) = hex (sha256 firmware)

-- `sha256_handler`: what `SSL_write` is given.
unfoldable pub sha256_handler : (List ℕ → List ℕ) → List ℕ → Option (List ℕ) → Option (List ℕ)
unfolding hex
sha256_handler sha256 resp firmware =
    c_string (snprintf resp 256 (json_headers ++ sha256_body sha256 firmware))

-- The device reads two hexadecimal digits at a time.
abbrev digit_value : ℕ → ℕ
digit_value c = if ltb c b'a' then c - b'0' else c - b'a' + 10

unfoldable unhex : List ℕ → List ℕ
unhex [] = []
unhex (c ∷ []) = []
unhex (c ∷ (d ∷ s)) = (digit_value c * 16 + digit_value d) ∷ unhex s

digit_value-hex_digit : (d : ℕ) → d < 16 → digit_value (hex_digit d) ≡ d
digit_value-hex_digit d h = ground arith

unhex-hex : (hash : List ℕ) → All (λ b. b < 256) hash → unhex (hex hash) ≡ hash
unfolding unhex hex
unhex-hex [] h = refl
unhex-hex (b ∷ hash) h =
    let high = digit_value-hex_digit (b / 16) (omega (arith, h.0)) in
    let low = digit_value-hex_digit (b % 16) (omega arith) in
    let whole : b / 16 * 16 + b % 16 ≡ b = omega arith in
    rw (high, low, whole) (ap (◌∷◌ b) (unhex-hex hash h.1))

hex-IsText : (hash : List ℕ) → IsText (hex hash)
unfolding hex
hex-IsText [] = tt
hex-IsText (b ∷ hash) = (digit_ne (b / 16), (digit_ne (b % 16), hex-IsText hash))
  where
    digit_ne : (d : ℕ) → hex_digit d ≢ 0
    digit_ne d = ground arith

length-hex : (hash : List ℕ) → length (hex hash) ≡ 2 * length hash
unfolding hex
length-hex [] = omega arith
length-hex (b ∷ hash) = omega (arith, length-hex hash)

-- The answer to a request for the hash is the JSON headers and the hash in hexadecimal, which is read
-- back as the hash; the hash has 32 bytes, and the buffer is router.c's.
sha256_read_back :
    (sha256 : List ℕ → List ℕ) (resp firmware : List ℕ)
    → length (sha256 firmware) ≡ 32
    → All (λ b. b < 256) (sha256 firmware)
    → length resp ≡ 256
    → (body : List ℕ) × (sha256_handler sha256 resp (some firmware) ≡ some (json_headers ++ body))
      × (unhex body ≡ sha256 firmware)
unfolding sha256_handler no_nul
sha256_read_back sha256 resp firmware len small size =
    let body = hex (sha256 firmware) in
    (
      body,
      c_string-snprintf resp 256 (json_headers ++ body)
          (append-IsText json_headers body (no_nul-IsText json_headers refl)
            (hex-IsText (sha256 firmware)))
          (omega (arith, length-hex (sha256 firmware), len)) (omega (arith, size)),
      unhex-hex (sha256 firmware) small,
    )

length-decimal_i64 : (v : ℕ) → v < 2 ^ 64 → length (decimal_i64 v) ≤ 20
unfolding decimal_i64
length-decimal_i64 v h = elim (Bool-cases (ltb v (2 ^ 63))) [
  | inl e ↦ rw e (omega (arith, length-digits 20 18 v [] (omega (arith, ltb→lt v (2 ^ 63) e))))
  | inr e ↦
      let high : 2 ^ 63 ≤ v = ground arith in
      rw e (omega (arith, length-digits 20 18 (2 ^ 64 - v) [] (omega (arith, high))))
]

decimal_i64-IsText : (v : ℕ) → IsText (decimal_i64 v)
unfolding decimal_i64
decimal_i64-IsText v = elim (Bool-cases (ltb v (2 ^ 63))) [
  | inl e ↦ rw e (digits-IsText 20 v [] tt)
  | inr e ↦ rw e (omega arith, digits-IsText 20 (2 ^ 64 - v) [] tt)
]

-- The status is written whole.
status_whole :
    (body : List ℕ) (uptime : ℕ)
    → uptime < 2 ^ 64
    → length body ≡ 128
    → status_handler body uptime ≡ some (status_text uptime)
unfolding status_handler status_text no_nul
status_whole body uptime h size =
    c_string-snprintf body 128 (status_text uptime)
      (append-IsText json_headers (codes "{\"uptime\": " ++ (decimal_i64 uptime ++ codes "}"))
        (no_nul-IsText json_headers refl)
        (append-IsText (codes "{\"uptime\": ") (decimal_i64 uptime ++ codes "}")
          (no_nul-IsText (codes "{\"uptime\": ") refl)
          (append-IsText (decimal_i64 uptime) (codes "}") (decimal_i64-IsText uptime)
            (no_nul-IsText (codes "}") refl))))
      (omega (arith, length-append (decimal_i64 uptime) (codes "}"), length-decimal_i64 uptime h))
      (omega (arith, size))
