-- ===== src/Registry/Ample.antt =====
-- What a start needs of the operating system to pass.
use esp_mo_net.Base.{ℕ, ◌≢◌, none, ◌≡◌, true}
use esp_mo_net.Rtos.{Rtos, Task}

-- An operating system that never runs short of memory.
pub record IsAmple (os : Rtos) : Type 0 where
  pub queue_made : (w : os.World) (n : ℕ) → (os.queue_create w n).0 ≢ 0
  pub task_made : (w : os.World) (t : Task) → (os.task_create w t).0 ≢ none
  pub room : (w : os.World) → os.heap_has_room w ≡ true
