-- ===== src/Uart/Frames.antt =====
-- The frames of components/service/src/uart_service.c as the reader of the serial line gets them back, which
-- is written from the repository's camera_uart_test.py; and the set-up of the line.
use mathlib.Core.List.{append-nil, append_assoc}
use esp_mo_net.Base.{
  [], ◌∷◌, ◌++◌, refl, none, some, true, false, List, ℕ, get_or, Option, ◌+◌, if◌then◌else◌, ◌*◌,
  ltb, length, take, ◌≤◌, ◌^◌, ◌||◌, not, ◌≡◌, ◌<◌, ◌==◌, drop, ◌%◌, ◌⊎◌, arith, ap, ◌∙◌,
  Bool-cases, length-append, leb, take-append, inr, ◌/◌, drop-append, inl, leb→le,
}
use esp_mo_net.Uart.{
  DriverCall, Line, write_bytes, uart_hal_init, driver_install, resolve_uart_port, param_config,
  resolve_gpio_num, set_pin, Hal, uart_hal_write_bytes, gpio_num_nc,
}
use esp_mo_net.Rtos.{Rtos}
use esp_mo_net.Uart.Service.{send_picture, Picture, frame_header, frame_magic, half_bytes}
use esp_mo_net.Message.{word_bytes, word_at_start, word_at_start-word_bytes}

abbrev half_at_start : List ℕ → ℕ
half_at_start bytes = get_or bytes 0 0 + get_or bytes 1 0 * 2 ^ 8

-- The bytes on the line.
abbrev pub on_line : List DriverCall → List ℕ
on_line [] = []
on_line (write_bytes port bytes ∷ calls) = bytes ++ on_line calls
on_line (driver_install port ∷ calls) = on_line calls
on_line (param_config port baud ∷ calls) = on_line calls
on_line (set_pin port tx rx ∷ calls) = on_line calls

-- A frame at the start of the reader's buffer: its sizes, its bytes, and what follows.
pub record Arrived : Type 0 where
  pub width : ℕ
  pub height : ℕ
  pub bytes : List ℕ
  pub later : List ℕ

-- Behind a header that says `len` bytes with the checksum `crc`.
abbrev read_body : (List ℕ → ℕ) → ℕ → ℕ → ℕ → ℕ → List ℕ → Option Arrived
read_body crc32 w h len crc buffer =
    if ltb (length buffer) len
    then none
    else if crc32 (take len buffer) == crc
    then some (record { width = w; height = h; bytes = take len buffer; later = drop len buffer })
    else none

unfoldable pub read_frame : (List ℕ → ℕ) → List ℕ → Option Arrived
read_frame crc32 buffer =
    if ltb (length buffer) 16 || not (word_at_start buffer == frame_magic)
    then none
    else if ltb (2 ^ 20) (word_at_start (drop 8 buffer))
    then none
    else read_body crc32 (half_at_start (drop 4 buffer)) (half_at_start (drop 6 buffer))
        (word_at_start (drop 8 buffer)) (word_at_start (drop 12 buffer)) (drop 16 buffer)

-- A header is read back, its sizes modulo 2 ^ 16.
read_frame-frame_header :
    (crc32 : List ℕ → ℕ) (p : Picture) (crc : ℕ) (body : List ℕ)
    → length p.bytes ≤ 2 ^ 20
    → crc < 2 ^ 32
    → read_frame crc32 (frame_header p crc ++ body)
      ≡ read_body crc32 (p.width % 2 ^ 16) (p.height % 2 ^ 16) (length p.bytes) crc body
unfolding read_frame frame_header word_bytes
read_frame-frame_header crc32 p crc body small fits =
    let long : ltb (length (frame_header p crc ++ body)) 16 ≡ false = ground arith in
    let magic =
      word_at_start-word_bytes frame_magic
        (half_bytes p.width
          ++ (half_bytes p.height ++ (word_bytes (length p.bytes) ++ (word_bytes crc ++ body))))
        (omega arith) in
    let len = word_at_start-word_bytes (length p.bytes) (word_bytes crc ++ body) (omega arith) in
    let sum = word_at_start-word_bytes crc body fits in
    let w : p.width % 256 + (p.width / 2 ^ 8) % 256 * 2 ^ 8 ≡ p.width % 2 ^ 16 = omega arith in
    let h : p.height % 256 + (p.height / 2 ^ 8) % 256 * 2 ^ 8 ≡ p.height % 2 ^ 16 = omega arith in
    let bounded : ltb (2 ^ 20) (length p.bytes) ≡ false = ground arith in
    rw (long, magic, len, bounded, sum, w, h)

read_body-append :
    (crc32 : List ℕ → ℕ) (w h : ℕ) (bytes later : List ℕ)
    → read_body crc32 w h (length bytes) (crc32 bytes) (bytes ++ later)
      ≡ some (record { width = w; height = h; bytes = bytes; later = later })
read_body-append crc32 w h bytes later =
    let enough : ltb (length (bytes ++ later)) (length bytes) ≡ false =
      ground (arith, length-append bytes later) in
    let same : (crc32 bytes == crc32 bytes) ≡ true = ground arith in
    rw (enough, take-append bytes later, drop-append bytes later, same)

on_line-write_bytes :
    (line : Line) (data' : List ℕ) → on_line (uart_hal_write_bytes line data') ≡ data'
on_line-write_bytes line [] = refl
on_line-write_bytes line (b ∷ data') = append-nil (b ∷ data')

module _ (line : Line) (crc32 : List ℕ → ℕ) where
  sent_bytes :
      (fb_at : ℕ → Option Picture) (p : Picture)
      → on_line (send_picture line crc32 fb_at p) ≡ frame_header p (crc32 p.bytes) ++ p.bytes
  unfolding send_picture frame_header word_bytes
  sent_bytes fb_at p =
      ap (λ bs. frame_header p (crc32 p.bytes) ++ bs) (on_line-write_bytes line p.bytes)

  -- A frame of at most 1 MiB that the sink writes to the serial line is read back by the reader of
  -- the repository's test, whatever follows it: its bytes, and its width and height modulo 2^16.
  -- The checksum is any function with results of 32 bits.
  pub frame_round_trip :
      (fb_at : ℕ → Option Picture) (p : Picture) (later : List ℕ)
      → length p.bytes ≤ 2 ^ 20
      → crc32 p.bytes < 2 ^ 32
      → read_frame crc32 (on_line (send_picture line crc32 fb_at p) ++ later)
        ≡ some (record {
          width = p.width % 2 ^ 16;
          height = p.height % 2 ^ 16;
          bytes = p.bytes;
          later = later;
        })
  frame_round_trip fb_at p later small crc =
      rw (sent_bytes fb_at p, append_assoc (frame_header p (crc32 p.bytes)) p.bytes later)
        (read_frame-frame_header crc32 p (crc32 p.bytes) (p.bytes ++ later) small crc
          ∙ read_body-append crc32 (p.width % 2 ^ 16) (p.height % 2 ^ 16) p.bytes later)

module _ (os : Rtos) where
  -- A line whose port and pins exist is set up; any other set-up changes nothing.
  abbrev SetUp : Line → Hal os → Type 0
  SetUp line hal =
      (line.port_num ≤ 2)
      × (line.tx_pin ≤ 48)
      × (line.rx_pin ≤ 48)
      × ((uart_hal_init os line hal).calls
          ≡ hal.calls
            ++ driver_install line.port_num
              ∷ param_config line.port_num line.baud_rate
              ∷ set_pin line.port_num line.tx_pin line.rx_pin
              ∷ [])
      × ((uart_hal_init os line hal).uart_queue ≡ (os.queue_create hal.world 5).0)

  uart_hal_init-SetUp :
      (line : Line) (hal : Hal os)
      → leb line.port_num 2 ≡ true
      → leb line.tx_pin 48 ≡ true
      → leb line.rx_pin 48 ≡ true
      → SetUp line hal
  unfolding uart_hal_init resolve_uart_port resolve_gpio_num
  uart_hal_init-SetUp line hal port tx rx =
      let known : (line.port_num == 3) ≡ false = ground arith in
      let tx_low : ltb 48 line.tx_pin ≡ false = ground arith in
      let rx_low : ltb 48 line.rx_pin ≡ false = ground arith in
      let tx_set : (line.tx_pin == gpio_num_nc) ≡ false = ground arith in
      let rx_set : (line.rx_pin == gpio_num_nc) ≡ false = ground arith in
      (
        leb→le line.port_num 2 port,
        leb→le line.tx_pin 48 tx,
        leb→le line.rx_pin 48 rx,
        simp (port, known, tx, rx, tx_low, rx_low, tx_set, rx_set)
            (append_assoc hal.calls
              (driver_install line.port_num ∷ param_config line.port_num line.baud_rate ∷ [])
              (set_pin line.port_num line.tx_pin line.rx_pin ∷ [])),
        simp (port, known, tx, rx, tx_low, rx_low, tx_set, rx_set) refl,
      )

  -- The set-up of the line changes nothing, or its port and pins exist and it is done in full.
  uart_hal_init_lem :
      (line : Line) (hal : Hal os) → (uart_hal_init os line hal ≡ hal) ⊎ SetUp line hal
  unfolding uart_hal_init resolve_uart_port resolve_gpio_num
  uart_hal_init_lem line hal = elim (Bool-cases (leb line.port_num 2)) [
    | inr bad ↦ inl (rw bad)
    | inl port ↦ elim (Bool-cases (leb line.tx_pin 48)) [
      | inr bad ↦ inl (let p : (line.port_num == 3) ≡ false = ground arith in rw (port, p, bad))
      | inl tx ↦ elim (Bool-cases (leb line.rx_pin 48)) [
        | inr bad ↦
            inl (let p : (line.port_num == 3) ≡ false = ground arith in rw (port, p, tx, bad))
        | inl rx ↦ inr (uart_hal_init-SetUp line hal port tx rx)
      ]
    ]
  ]
