-- ===== src/Cpp/Button.antt =====
-- components/monet_core/src_cpp/button_isr_demo.cpp: the interrupt puts a time into a queue, and a task takes the
-- times out and debounces them. Times are microseconds since the start, below 2^63.
pub mod Debounce
use esp_mo_net.Base.{
  none, some, [], ◌∷◌, ℕ, ◌*◌, List, if◌then◌else◌, Option, ltb, some, ◌+◌, ◌%◌, ◌^◌,
}
use esp_mo_net.Cpp.Queue.{Kernel}
use esp_mo_net.Cpp.Queue

-- `kDebounceUs`
abbrev pub debounce_us : ℕ
debounce_us = 200 * 1000

-- The depth of `g_queue`
abbrev pub queue_depth : ℕ
queue_depth = 8

-- The variables of `button_task`, and the presses that it logged, the latest first.
pub record Worker : Type 0 where
  pub last_us : ℕ
  pub presses : ℕ
  pub logged : List ℕ

unfoldable pub start : Worker
start = record { last_us = 0; presses = 0; logged = [] }

-- What `button_task` does with an event.
unfoldable pub handle : ℕ → Worker → Worker
handle ts_us st =
    if ltb ts_us (st.last_us + debounce_us)
    then st
    else record { last_us = ts_us; presses = (st.presses + 1) % 2 ^ 32; logged = ts_us ∷ st.logged }

-- An interrupt at a time, or a turn of the task's loop.
pub data Event : Type 0 where
  interrupt : ℕ → Event
  turn : Event

module _ (k : Kernel ℕ) where
  open k use {Handle}

  -- `button_isr`; what the queue answers is not looked at.
  abbrev pub button_isr : ℕ → Handle → Handle
  button_isr now q = (Queue.send_from_isr k q now).1

  abbrev pub handle_received : Option ℕ → Worker → Worker
  handle_received none st = st
  handle_received (some ts_us) st = handle ts_us st

  -- A turn of `button_task`: it waits while the queue is empty.
  abbrev pub button_task : Handle × Worker → Handle × Worker
  button_task (q, st) = let (received, q') = Queue.receive k q in (q', handle_received received st)

  unfoldable pub run : List Event → Handle × Worker → Handle × Worker
  run [] s = s
  run (interrupt now ∷ events) (q, st) = run events (button_isr now q, st)
  run (turn ∷ events) (q, st) = run events (button_task (q, st))
