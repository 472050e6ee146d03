-- ===== src/Uart/Service.antt =====
-- components/service/src/uart_service.c: the sink, and the task that publishes what was received.
use esp_mo_net.Service.{ServiceDesc, subscriber}
use esp_mo_net.Base.{
  [], ◌∷◌, ◌++◌, none, some, true, List, ℕ, ◌%◌, ◌/◌, length, Option, Bool, overwrite, ◌^◌,
  if◌then◌else◌, get_or, take, ◌==◌, ◌>>=◌, ◌-◌, c_string, replicate,
}
use esp_mo_net.Bus.{Bus, publish}
use esp_mo_net.Message.{
  word_bytes, Msg, sensor_uart, sensor_light, sensor_jpeg, jpeg_fb, union_size, value_int,
  sensor_temp, temperature, humidity,
}
use esp_mo_net.Uart.{Line, DriverCall, uart_hal_write_bytes, uart_hal_write_string, crlf}
use esp_mo_net.Rtos.{Rtos}
use esp_mo_net.Format.{codes, decimal_i32, snprintf, decimal_float}

-- `camera_fb_t`: its sizes and bytes.
pub record Picture : Type 0 where
  pub width : ℕ
  pub height : ℕ
  pub bytes : List ℕ

-- The low bytes of a `uint16_t`.
abbrev pub half_bytes : ℕ → List ℕ
half_bytes v = v % 256 ∷ (v / 2 ^ 8) % 256 ∷ []

abbrev pub frame_magic : ℕ
frame_magic = 0xA5A5A5A5

-- The packed header.
unfoldable pub frame_header : Picture → ℕ → List ℕ
frame_header p crc =
    word_bytes frame_magic
    ++ (half_bytes p.width
        ++ (half_bytes p.height ++ (word_bytes (length p.bytes) ++ word_bytes crc)))

-- The degree sign is two bytes.
unfoldable pub fallback_text : Msg → Option (List ℕ)
fallback_text m =
    if m.topic == sensor_light
    then some (codes "[LIGHT] ADC: " ++ decimal_i32 (value_int m))
    else if m.topic == sensor_temp
    then some (
        codes "[TEMP] "
        ++ (decimal_float (temperature m)
            ++ (0xC2 ∷ 0xB0 ∷ codes "C, " ++ (decimal_float (humidity m) ++ codes "%"))))
    else if m.topic == sensor_uart
    then (c_string m.payload >>= λ str. some (codes "[UART] " ++ str))
    else some (codes "[UNKNOWN] topic=" ++ decimal_i32 m.topic)

abbrev pub buf_size : ℕ
buf_size = 128

-- `crc32` is the ROM's `esp_crc32_le(0, …)`; `fb_at` gives the frame of a pointer, `none` for NULL.
module _ (line : Line) (crc32 : List ℕ → ℕ) (fb_at : ℕ → Option Picture) where
  unfoldable pub send_picture : Picture → List DriverCall
  send_picture p =
      uart_hal_write_bytes line (frame_header p (crc32 p.bytes))
      ++ uart_hal_write_bytes line p.bytes

  -- The text of a message: its JSON, or what `buf` holds.
  abbrev pub text_of : Msg → Option (List ℕ)
  text_of m =
      if get_or m.payload 0 0 == 0
      then (fallback_text m >>= λ text. c_string (snprintf (replicate buf_size 0) buf_size text))
      else c_string m.payload

  -- `uart_sink_handler`; it always returns true.
  unfoldable pub uart_sink_handler : Msg → Option (Bool × List DriverCall)
  unfolding send_picture fallback_text
  uart_sink_handler m =
      if m.topic == sensor_jpeg
      then (fb_at (jpeg_fb m) >>= λ p. some (true, send_picture p))
      else (text_of m >>= λ text.
          some (true, uart_hal_write_string line text ++ uart_hal_write_string line crlf))

-- The message of a line: `strncpy` into `uart_text.str`, padded with NULs, the last byte NUL; the rest of the
-- union is zero.
abbrev str_size : ℕ
str_size = 32

unfoldable pub uart_msg : List ℕ → ℕ → Msg
uart_msg received now = record {
  topic = sensor_uart;
  ts_ms = now;
  payload = overwrite (take (str_size - 1) received) (replicate union_size 0);
  release = none;
}

module _ (os : Rtos) where
  open os use {World}

  -- A turn of `uart_receive_task`.
  unfoldable receive_turn : List ℕ → ℕ → Bus → World → Bus × World
  unfolding uart_msg
  receive_turn received now bus w = publish os bus (some (uart_msg received now)) w

-- The descriptor; the task's address is NULL where the configuration leaves the service out.
abbrev pub uart_service_desc : ℕ → List ℕ → ℕ → ServiceDesc
uart_service_desc task topics sink = record {
  name = some "uart_service";
  task_fn = task;
  task_name = none;
  stack_size = 4096;
  priority = 6;
  role = subscriber;
  topics = some topics;
  sink_cb = sink;
}
