-- ===== src/Uart/Received.antt =====
-- What is received on the line, and what the sink of components/service/src/uart_service.c prints.
use esp_mo_net.Base.{
  [], ◌∷◌, ◌++◌, refl, zero, suc, none, some, true, false, List, ℕ, IsText, length, c_string,
  Option, ◌<◌, ◌≡◌, overwrite, take, replicate, take-IsText, arith, ◌%◌, length-take, ◌==◌, inl,
  inr, ◌≢◌, get_or, c_string-append, Option-cases, drop,
}
use esp_mo_net.Uart.{Line, DriverCall, write, crlf, rx_turn}
use esp_mo_net.Uart.Service.{uart_msg, Picture, uart_sink_handler}
use esp_mo_net.Message.{word_bytes, Msg, sensor_uart, sensor_jpeg}
use esp_mo_net.Sensors.Climate.{climate_msg}

-- A printed text: the driver's line end, and the sink's, which gets the driver's too.
abbrev pub printed : Line → List ℕ → List DriverCall
printed line text = write line text ∷ write line crlf ∷ write line crlf ∷ write line crlf ∷ []

-- A text copied over zeros ends where it ends.
c_string-overwrite :
    (s : List ℕ) (n : ℕ) → IsText s → length s < n → c_string (overwrite s (replicate n 0)) ≡ some s
unfolding c_string
c_string-overwrite s zero ok short = absurd (omega arith)
c_string-overwrite [] (suc n) ok short = refl
c_string-overwrite (c ∷ s) (suc n) ok short =
    ground (arith, ok.0, c_string-overwrite s n ok.1 (omega arith))

-- A buffer with a NUL in it holds a string.
c_string-ends : (s rest : List ℕ) → c_string (s ++ 0 ∷ rest) ≢ none
unfolding c_string
c_string-ends [] rest = λ e. cc
c_string-ends (c ∷ s) rest = ground (arith, c_string-ends s rest)

c_string-cons :
    (b : ℕ) (bs : List ℕ)
    → (b == 0) ≡ false
    → c_string bs ≢ none
    → (rest : List ℕ) × (c_string (b ∷ bs) ≡ some (b ∷ rest))
unfolding c_string
c_string-cons b bs nz ends = elim (Option-cases (c_string bs)) [
  | inl e ↦ absurd (ends e)
  | inr (rest, e) ↦ (rest, rw (nz, e))
]

uart_msg_text :
    (s : List ℕ) (now : ℕ) → IsText s → c_string (uart_msg s now).payload ≡ some (take 31 s)
unfolding uart_msg
uart_msg_text s now ok =
    c_string-overwrite (take 31 s) 128 (take-IsText 31 s ok) (omega (arith, length-take 31 s))

uart_msg_head :
    (b : ℕ) (s : List ℕ) (now : ℕ)
    → (get_or (uart_msg (b ∷ s) now).payload 0 0 ≡ b) × ((uart_msg (b ∷ s) now).topic ≡ sensor_uart)
unfolding uart_msg
uart_msg_head b s now = (refl, refl)

module _ (line : Line) (crc32 : List ℕ → ℕ) (fb_at : ℕ → Option Picture) where
  -- A message that starts with a character is printed as a string.
  sink_prints :
      (m : Msg) (text : List ℕ)
      → (m.topic == sensor_jpeg) ≡ false
      → (get_or m.payload 0 0 == 0) ≡ false
      → c_string m.payload ≡ some text
      → uart_sink_handler line crc32 fb_at m ≡ some (true, printed line text)
  unfolding uart_sink_handler
  sink_prints m text other starts holds = rw (other, starts, holds)

  -- A line of non-NUL bytes, not empty, is handed on whole, and printed as its first 31 bytes and
  -- three line ends.
  pub echo :
      (b : ℕ) (bytes : List ℕ) (now : ℕ)
      → IsText (b ∷ bytes)
      → (rx_turn (b ∷ bytes) true ≡ some (b ∷ bytes))
        × (uart_sink_handler line crc32 fb_at (uart_msg (b ∷ bytes) now)
            ≡ some (true, printed line (take 31 (b ∷ bytes))))
  unfolding rx_turn
  echo b bytes now ok =
      let (head, topic) = uart_msg_head b bytes now in
      let nz : (b == 0) ≡ false = ground (arith, ok.0) in
      (
        c_string-append (b ∷ bytes) [] ok,
        sink_prints (uart_msg (b ∷ bytes) now) (take 31 (b ∷ bytes)) (rw topic) (rw (head, nz))
            (uart_msg_text (b ∷ bytes) now ok),
      )

  -- A climate message whose temperature has a low byte other than zero is printed as a string that
  -- starts with that byte of the float, not as a readable text.
  climate_raw :
      (t h now : ℕ)
      → t % 256 ≢ 0
      → (rest : List ℕ) × (uart_sink_handler line crc32 fb_at (climate_msg t h now)
          ≡ some (true, printed line (t % 256 ∷ rest)))
  unfolding word_bytes
  climate_raw t h now odd =
      let nz : (t % 256 == 0) ≡ false = ground (arith, odd) in
      let (rest, holds) =
        c_string-cons (t % 256) (drop 1 (climate_msg t h now).payload) nz
          (c_string-ends (drop 1 (word_bytes t) ++ word_bytes h) (replicate 119 0)) in
      (rest, sink_prints (climate_msg t h now) (t % 256 ∷ rest) refl nz holds)
