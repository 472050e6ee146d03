-- ===== src/Rtos.antt =====
-- FreeRTOS as the sources use it: queues of messages and tasks. It is not part of the repository, so
-- it is a parameter of the models, with the behaviour that its manual documents as laws.
pub mod Simple
use Prim.Native.String.{String}
use esp_mo_net.Base.{[], ◌∷◌, ◌++◌, ℕ, List, Option, ◌≡◌, if◌then◌else◌, ltb, length, ◌≢◌, Bool}
use esp_mo_net.Message.{Msg}

-- The argument of a task: NULL, or a `subscriber_ctx_t` with its queue and its `sink_cb`.
pub data TaskArg : Type 0 where
  null : TaskArg
  subscriber_ctx : ℕ → ℕ → TaskArg

-- What `xTaskCreate` is told: the entry function, the name, the stack, the priority, the argument.
pub record Task : Type 0 where
  pub entry : ℕ
  pub name : Option String
  pub stack_size : ℕ
  pub priority : ℕ
  pub arg : TaskArg

pub record Rtos : Type 1 where
  pub World : Type 0
  -- The messages in the queue of a handle, oldest first, and the length it was created with.
  pub pending : World → ℕ → List Msg
  pub capacity : World → ℕ → ℕ
  -- `xQueueSend(queue, msg, 0)`
  pub send : World → ℕ → Msg → World
  -- `xQueueCreate(length, sizeof(msg_t))`: the handle is 0 where memory is short.
  pub queue_create : World → ℕ → ℕ × World
  pub queue_delete : World → ℕ → World
  -- `xTaskCreate`: `none` where it does not return pdPASS.
  pub task_create : World → Task → Option ℕ × World
  pub task_delete : World → ℕ → World
  pub stack_high_water_mark : World → ℕ → ℕ
  -- sizeof(StackType_t)
  pub stack_type_size : ℕ
  -- Whether `malloc` has room for a `subscriber_ctx_t`.
  pub heap_has_room : World → Bool
  -- A message is copied to the back of the queue, or lost at once where the queue is full.
  pub pending-send_self :
      (w : World) (h : ℕ) (m : Msg)
      → pending (send w h m) h
        ≡ (if ltb (length (pending w h)) (capacity w h) then pending w h ++ m ∷ [] else pending w h)
  pub pending-send_ne :
      (w : World) (h j : ℕ) (m : Msg) → h ≢ j → pending (send w h m) j ≡ pending w j
  pub capacity-send : (w : World) (h j : ℕ) (m : Msg) → capacity (send w h m) j ≡ capacity w j
