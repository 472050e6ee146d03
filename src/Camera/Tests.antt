-- ===== src/Camera/Tests.antt =====
-- A frame of components/service/src/camera_service.c that reaches one queue twice.
use esp_mo_net.Bus.Shape.{IsValid}
use esp_mo_net.Base.{[], ◌∷◌, refl, some, arith, Option, replicate, true, ℕ, ◌+◌, ◌≡◌}
use esp_mo_net.Bus.{Bus}
use esp_mo_net.Camera.{dispatch, capture_turn}
use esp_mo_net.Message.{Msg}
use esp_mo_net.Rtos.Simple.{simple, quiet}
use esp_mo_net.Camera.Ownership.{frame_returns}

-- Queue 5 listens to frames and to the group.
abbrev wired : Bus
wired = record {
  subscriber_queues = replicate 8 0 ∷ replicate 8 0 ∷ replicate 8 0 ∷ (5 ∷ replicate 7 0) ∷ [];
  group_queues = 5 ∷ replicate 7 0;
  group_queue_count = 1;
  mutex_created = true;
}

wired-IsValid : IsValid wired
wired-IsValid = ground arith

-- The sink counts its messages.
abbrev counting : Option (Msg → ℕ → ℕ)
counting = some (λ m n. n + 1)

frame_returns_example :
    (dispatch counting ((capture_turn simple wired quiet 77 7).1.queue 5) 0).0 ≡ 77 ∷ 77 ∷ []
frame_returns_example =
    frame_returns simple counting 0 wired quiet 77 7 5 wired-IsValid (omega arith) (omega arith)
      (omega arith) refl
