-- ===== src/Mjpeg/Tests.antt =====
-- Runs of the stream, and its theorems at concrete inputs.
use esp_mo_net.Base.{[], ◌∷◌, refl, some, true, false, List, ℕ, replicate, ◌+◌, ◌≡◌, ◌*◌, ◌≤◌}
use esp_mo_net.Mjpeg.{
  failed, task_delete, Frame, Turn, pace, stream_loop, mjpeg_service_task, header_chunk, task_delay,
  send_chunk, running_on, frame_us, fb_return,
}
use esp_mo_net.Mjpeg.Stream.{returned, frames_returned, rate_bound}

abbrev frame : Frame
frame = record { address = 9; bytes = 0xFF ∷ 0xD8 ∷ [] }

abbrev turn : ℕ → Turn
turn t = record { frame = some frame; header_sent = true; body_sent = true; now = t }

abbrev broken : Turn
broken = record { frame = some frame; header_sent = false; body_sent = true; now = 0 }

abbrev junk : List ℕ
junk = replicate 96 0xAA

-- The first frame is early, the second late.
pace_runs : (pace 1000 2000 ≡ (task_delay 82 ∷ [], 84333)) × (pace 84333 200000 ≡ ([], 200000))
unfolding pace
pace_runs = (refl, refl)

stream_runs : stream_loop junk 1000 (turn 2000 ∷ broken ∷ []) ≡ (
  send_chunk (header_chunk junk 2)
      ∷ send_chunk (0xFF ∷ 0xD8 ∷ [])
      ∷ fb_return 9
      ∷ task_delay 82
      ∷ send_chunk (header_chunk junk 2)
      ∷ fb_return 9
      ∷ [],
  failed,
)
unfolding stream_loop
stream_runs = refl

setup_runs : mjpeg_service_task false true ≡ task_delete ∷ []
unfolding mjpeg_service_task
setup_runs = refl

frames_returned_example : returned (stream_loop junk 1000 (turn 2000 ∷ broken ∷ [])).0 ≡ 9 ∷ 9 ∷ []
frames_returned_example = frames_returned junk (turn 2000 ∷ broken ∷ []) 1000

two_turns : (stream_loop junk 1000 (turn 2000 ∷ turn 200000 ∷ [])).1 ≡ running_on 200000
unfolding stream_loop pace
two_turns = refl

rate_bound_example : 1000 + 2 * frame_us ≤ 200000
rate_bound_example = rate_bound junk (turn 2000 ∷ turn 200000 ∷ []) 1000 two_turns
