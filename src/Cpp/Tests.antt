-- ===== src/Cpp/Tests.antt =====
-- The C++ layer at concrete inputs.
use esp_mo_net.Base.{
  [], ◌∷◌, refl, none, some, arith, List, ◌≡◌, ◌+◌, ℕ, map, length, true, ◌%◌, ◌^◌,
}
use esp_mo_net.Message.{sensor_light, group_sensor}
use esp_mo_net.Rtos.Simple.{simple, quiet}
use esp_mo_net.Bus.Delivery.{count}
use esp_mo_net.Cpp.Agreement.{
  Call, publish, subscribe, subscribe_group, run_c, run_cpp, buses_agree,
}
use esp_mo_net.Cpp.CameraFrame.{
  Op, adopt, move_construct, move_assign, reset_of, perform_all, no_frames, end_scope, adopted,
  Frames, perform, reset,
}
use esp_mo_net.Cpp.CameraFrame.Owned.{frames_returned_once}
use esp_mo_net.Cpp.Queue.{fifo}
use esp_mo_net.Cpp.Button.{Event, interrupt, turn, run, start}
use esp_mo_net.Cpp.Button.Debounce.{
  Apart, presses-Apart, schedules_agree, is_lossless, handle_all, times,
}
use esp_mo_net.Cpp.Demo.{demo_msg, demo_message_bus, demo_dangles}
use esp_mo_net.Bus
use esp_mo_net.Cpp.MessageBus
use esp_mo_net.Cpp.Queue

-- A second subscription of one queue, a refused topic, and a message.
abbrev calls : List Call
calls =
    subscribe sensor_light 6
    ∷ subscribe_group group_sensor 7
    ∷ subscribe 9 6
    ∷ publish (some demo_msg)
    ∷ publish none
    ∷ []

buses_agree_example :
    run_cpp simple calls (MessageBus.construct 5) quiet ≡ run_c simple calls Bus.init quiet
buses_agree_example = buses_agree simple 5 calls quiet

-- A frame is moved twice, and its last owner is given another one.
abbrev program : List Op
program = adopt 4 ∷ move_construct 0 ∷ adopt 0 ∷ move_assign 2 1 ∷ reset_of 2 8 ∷ []

abbrev last_state : Frames
last_state = record { objects = 0 ∷ 0 ∷ 8 ∷ []; returned = 4 ∷ []; handed = [] }

program_runs : perform_all program no_frames ≡ some last_state
unfolding perform_all perform reset no_frames
program_runs = refl

frames_returned_once_example :
    count 4 (end_scope last_state).returned + count 4 (end_scope last_state).handed
    ≡ count 4 (map adopted program)
frames_returned_once_example = frames_returned_once program last_state 4 program_runs (omega arith)

abbrev events : List Event
events = interrupt 250000 ∷ interrupt 260000 ∷ turn ∷ interrupt 460000 ∷ turn ∷ turn ∷ turn ∷ []

presses-Apart_example :
    let (q, st) = run (fifo ℕ) events (Queue.construct (fifo ℕ) 8, start) in
    Apart st.logged × (st.presses ≡ length st.logged % 2 ^ 32)
presses-Apart_example = presses-Apart (fifo ℕ) events 8

events_lossless : is_lossless (fifo ℕ) events (Queue.construct (fifo ℕ) 8, start) ≡ true
unfolding is_lossless run
events_lossless = refl

schedules_agree_example :
    let (q, st) = run (fifo ℕ) events (Queue.construct (fifo ℕ) 8, start) in
    handle_all (fifo ℕ) q.held st ≡ handle_all (fifo ℕ) (times (fifo ℕ) events) start
schedules_agree_example = schedules_agree (fifo ℕ) events events_lossless

demo_dangles_example :
    let (bus, w') = demo_message_bus simple 6 (MessageBus.construct 5) quiet in
    (w' ≡ simple.queue_delete (simple.send quiet 6 demo_msg) 6)
    × ((MessageBus.publish simple bus demo_msg quiet).0 ≡ simple.send quiet 6 demo_msg)
demo_dangles_example = demo_dangles simple 5 6 quiet quiet demo_msg (omega arith) refl
