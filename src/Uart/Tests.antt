-- ===== src/Uart/Tests.antt =====
-- Runs on the serial line, and the theorems at concrete inputs.
use mathlib.Core.Option
use esp_mo_net.Base.{
  [], ◌∷◌, ◌++◌, refl, none, some, true, List, ℕ, ◌+◌, Option, ◌≡◌, if◌then◌else◌, ◌==◌, arith,
  c_string, length, take,
}
use esp_mo_net.Uart.{Line, Hal, uart_hal_init, driver_install, param_config, set_pin, DriverCall}
use esp_mo_net.Uart.Service.{Picture, frame_header, uart_sink_handler, send_picture}
use esp_mo_net.Uart.Tasks.{uart_service_task, uart_service_start}
use esp_mo_net.Uart.Closed.{IsWrite, effect, line_stays_closed, sink_effect, uart_entry}
use esp_mo_net.Registry.{State, start as registry_start}
use esp_mo_net.Service.{find, ServiceEntry}
use esp_mo_net.Camera.{release_frame, dispatch, frame_msg}
use esp_mo_net.Message.{Msg}
use esp_mo_net.Base.{All, Ensures}
use esp_mo_net.Uart.Frames.{read_frame, on_line, frame_round_trip}
use esp_mo_net.Rtos.Simple.{simple, quiet}
use esp_mo_net.Message.{word_bytes, word_at_start, sensor_jpeg, word_payload, sensor_light}
use esp_mo_net.Uart.Received.{printed}
use esp_mo_net.Format.{decimal_i32, digits, snprintf, codes}
use esp_mo_net.Bus

abbrev line : Line
line = record { port_num = 1; tx_pin = 17; rx_pin = 18; baud_rate = 115200 }

-- A checksum, and a frame whose width takes more than 16 bits.
abbrev sum : List ℕ → ℕ
sum [] = 7
sum (b ∷ bytes) = b + sum bytes

abbrev picture : Picture
picture = record { width = 65537; height = 240; bytes = 0xFF ∷ 0xD8 ∷ [] }

abbrev lens : ℕ → Option Picture
lens p = if p == 0 then none else some picture

abbrev idle : Hal simple
idle = record { uart_queue = 0; calls = []; world = quiet }

header_runs :
    frame_header picture 7
    ≡ 0xA5 ∷ 0xA5 ∷ 0xA5 ∷ 0xA5 ∷ 1 ∷ 0 ∷ 240 ∷ 0 ∷ 2 ∷ 0 ∷ 0 ∷ 0 ∷ 7 ∷ 0 ∷ 0 ∷ 0 ∷ []
unfolding frame_header word_bytes
header_runs = refl

-- The value's bytes stand where the JSON would: 0x100 has a low byte of zero.
fallback_runs :
    uart_sink_handler line sum lens
      (record { topic = sensor_light; ts_ms = 0; payload = word_payload 256; release = none })
    ≡ some (true, printed line (codes "[LIGHT] ADC: 256"))
unfolding uart_sink_handler word_bytes word_at_start decimal_i32 digits snprintf c_string
fallback_runs = refl

null_frame :
    uart_sink_handler line sum lens
      (record { topic = sensor_jpeg; ts_ms = 0; payload = word_payload 0; release = none })
    ≡ none
unfolding uart_sink_handler word_bytes word_at_start
null_frame = refl

init_runs : (uart_hal_init simple line idle).uart_queue ≡ 10
unfolding uart_hal_init
init_runs = refl

frame_round_trip_example :
    read_frame sum (on_line (send_picture line sum lens picture) ++ 1 ∷ [])
    ≡ some (record { width = 1; height = 240; bytes = 0xFF ∷ 0xD8 ∷ []; later = 1 ∷ [] })
frame_round_trip_example =
    frame_round_trip line sum lens picture (1 ∷ []) (omega arith) (omega arith)

-- The service, with its task and with another in its place, and the messages it is handed.
abbrev service_at : ℕ → List ServiceEntry
service_at task = uart_entry task (16 ∷ []) 9 ∷ []

abbrev serviced : State simple
serviced = record { entries = service_at 5; bus = Bus.init; world = quiet }

abbrev light_value : Msg
light_value = record { topic = sensor_light; ts_ms = 0; payload = word_payload 256; release = none }

abbrev handed : List Msg
handed = light_value ∷ frame_msg 4 0 ∷ []

found_uart :
    (task : ℕ) → find "uart_service" (service_at task) ≡ some (0, uart_entry task (16 ∷ []) 9)
unfolding find
found_uart task = refl

line_stays_closed_example :
    (effect simple
        (registry_start simple (record serviced { entries = service_at 6 }) "uart_service")
      ≡ effect simple (registry_start simple serviced "uart_service"))
    × Ensures (All IsWrite) (dispatch (some (sink_effect line sum lens)) handed (some [])).1
line_stays_closed_example =
    line_stays_closed simple line sum lens serviced (service_at 6) 0 0 5 6 9 (16 ∷ []) handed
      (found_uart 5) (found_uart 6)

abbrev first_calls : Hal simple × List ℕ → List DriverCall × List ℕ
first_calls (hal, returned) = (take 3 hal.calls, returned)

-- The task that nobody starts sets the line up first, and gives the frame back.
task_runs :
    Option.map first_calls (uart_service_task line sum lens simple 10 handed idle)
    ≡ some (driver_install 1 ∷ param_config 1 115200 ∷ set_pin 1 17 18 ∷ [], 4 ∷ [])
unfolding uart_service_task uart_hal_init uart_sink_handler word_bytes c_string snprintf decimal_i32
    word_at_start digits release_frame
task_runs = refl

start_runs : length (uart_service_start simple line idle).world.tasks ≡ 2
unfolding uart_service_start uart_hal_init
start_runs = refl
