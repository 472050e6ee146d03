-- ===== src/Uart.antt =====
-- components/monet_hal/src/uart_hal.c and components/service/src/uart_service.c: messages on the serial line.
-- A `none` result is a fault: a NULL frame, or a string without an end.
pub mod Service
pub mod Frames
pub mod Received
pub mod Tasks
pub mod Closed
mod Tests
use esp_mo_net.Rtos.{Rtos, Task, null}
use esp_mo_net.Base.{
  [], ◌∷◌, ◌++◌, refl, zero, suc, none, some, true, false, List, ℕ, ◌^◌, if◌then◌else◌, Bool, ◌-◌,
  leb, ltb, ◌==◌, Option, ◌||◌, not, c_string,
}

-- `UART_NUM_MAX` and `GPIO_NUM_NC`, the latter as the 32-bit pattern of -1
abbrev uart_num_max : ℕ
uart_num_max = 3

abbrev pub gpio_num_nc : ℕ
gpio_num_nc = 2 ^ 32 - 1

unfoldable pub resolve_uart_port : ℕ → ℕ
resolve_uart_port port_cfg = if leb port_cfg 2 then port_cfg else uart_num_max

-- An `int` that is negative has a pattern above 48.
abbrev gpio_valid : ℕ → Bool
gpio_valid gpio = leb gpio 48

unfoldable pub resolve_gpio_num : ℕ → ℕ
resolve_gpio_num gpio_val = if ltb 48 gpio_val then gpio_num_nc else gpio_val

-- The settings of the line: CONFIG_UART_PORT_NUM, _TX_PIN, _RX_PIN, _BAUD_RATE.
pub record Line : Type 0 where
  pub port_num : ℕ
  pub tx_pin : ℕ
  pub rx_pin : ℕ
  pub baud_rate : ℕ

-- The calls of the UART's driver.
pub data DriverCall : Type 0 where
  driver_install : ℕ → DriverCall
  param_config : ℕ → ℕ → DriverCall
  set_pin : ℕ → ℕ → ℕ → DriverCall
  write_bytes : ℕ → List ℕ → DriverCall

abbrev pub crlf : List ℕ
crlf = 13 ∷ 10 ∷ []

module _ (line : Line) where
  abbrev pub write : List ℕ → DriverCall
  write bytes = write_bytes (resolve_uart_port line.port_num) bytes

  -- `monet_uart_hal_write_string`, of the string's characters
  abbrev pub uart_hal_write_string : List ℕ → List DriverCall
  uart_hal_write_string str = write str ∷ write crlf ∷ []

  -- `monet_uart_hal_write_bytes`
  abbrev pub uart_hal_write_bytes : List ℕ → List DriverCall
  uart_hal_write_bytes [] = []
  uart_hal_write_bytes (b ∷ data') = write (b ∷ data') ∷ []

-- The address of `uart_rx_task`, its priority and stack.
abbrev uart_rx_task : ℕ
uart_rx_task = 2

abbrev rx_task : Task
rx_task = record {
  entry = uart_rx_task;
  name = some "uart_rx_task";
  stack_size = 4096;
  priority = 10;
  arg = null;
}

module _ (os : Rtos) where
  open os use {World, queue_create, task_create}

  -- `uart_queue`, the driver's calls, and the operating system.
  pub record Hal : Type 0 where
    pub uart_queue : ℕ
    pub calls : List DriverCall
    pub world : World

  -- The part of the initialisation behind the checks of the port and of the pins.
  abbrev install : Line → ℕ → Hal → Hal
  install line port hal =
      let tx = resolve_gpio_num line.tx_pin in
      let rx = resolve_gpio_num line.rx_pin in
      let installed = hal.calls ++ driver_install port ∷ param_config port line.baud_rate ∷ [] in
      let (queue, w) = queue_create hal.world 5 in
      if tx == gpio_num_nc || rx == gpio_num_nc then record hal { calls = installed } else record {
        uart_queue = queue;
        calls = installed ++ set_pin port tx rx ∷ [];
        world = (task_create w rx_task).1;
      }

  -- `monet_uart_hal_init`
  unfoldable pub uart_hal_init : Line → Hal → Hal
  unfolding resolve_uart_port resolve_gpio_num
  uart_hal_init line hal =
      let port = resolve_uart_port line.port_num in
      if port == uart_num_max
      then hal
      else if not (gpio_valid line.tx_pin) || not (gpio_valid line.rx_pin)
      then hal
      else install line port hal

-- `UART_BUF_SIZE`
abbrev uart_buf_size : ℕ
uart_buf_size = 128

-- A turn of `uart_rx_task`: what `uart_read_bytes` put into the buffer, at most one byte less than its size,
-- and whether `strdup` found memory; the string for the queue.
unfoldable pub rx_turn : List ℕ → Bool → Option (List ℕ)
rx_turn [] room = none
rx_turn (b ∷ bytes) room = if room then c_string ((b ∷ bytes) ++ 0 ∷ []) else none
