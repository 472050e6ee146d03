-- ===== src/Uart/Tasks.antt =====
-- components/service/src/uart_service.c: the task that forwards messages to the serial line, and the start of the
-- receiving side.
use esp_mo_net.Rtos.{null}
use esp_mo_net.Uart.{Line, DriverCall, Hal, uart_hal_init}
use esp_mo_net.Uart.Service.{Picture, uart_sink_handler}
use esp_mo_net.Base.{ℕ, List, some, Option, Bool, ◌∷◌, if◌then◌else◌, ◌>>=◌, ◌==◌, [], ◌++◌}
use esp_mo_net.Rtos.{Task, Rtos}
use esp_mo_net.Message.{Msg}
use esp_mo_net.Camera.{release_hook}

-- The address of `uart_receive_task`, and its priority and stack.
abbrev uart_receive_task : ℕ
uart_receive_task = 3

abbrev receive_task : Task
receive_task = record {
  entry = uart_receive_task;
  name = some "uart_receive_task";
  stack_size = 2048;
  priority = 5;
  arg = null;
}

module _ (os : Rtos) where
  -- `uart_service_start`
  unfoldable pub uart_service_start : Line → Hal os → Hal os
  uart_service_start line hal =
      let ready = uart_hal_init os line hal in
      record ready { world = (os.task_create ready.world receive_task).1 }

module _ (line : Line) (crc32 : List ℕ → ℕ) (fb_at : ℕ → Option Picture) where
  -- The frames that the release of a handled message gives back.
  abbrev released_if : Bool → Msg → List ℕ
  released_if handled m = if handled then (release_hook m.release m).0 else []

  -- The loop of `uart_service_task` over the messages that its queue hands out: what the driver is called with, and
  -- the frames that are given back.
  unfoldable pub forward : List Msg → Option (List DriverCall × List ℕ)
  forward [] = some ([], [])
  forward (m ∷ ms) = uart_sink_handler line crc32 fb_at m >>= λ (handled, calls).
      forward ms >>= λ (more, returned). some (calls ++ more, released_if handled m ++ returned)

  -- `uart_service_task`; a NULL queue ends it.
  unfoldable pub uart_service_task : (os : Rtos) → ℕ → List Msg → Hal os → Option (Hal os × List ℕ)
  unfolding forward
  uart_service_task os queue ms hal =
      if queue == 0
      then some (hal, [])
      else let ready = uart_hal_init os line hal in
        (forward ms >>= λ (calls, returned).
        some (record ready { calls = ready.calls ++ calls }, returned))
