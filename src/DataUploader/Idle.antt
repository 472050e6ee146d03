-- ===== src/DataUploader/Idle.antt =====
-- The services of components/service/src/data_uploader_service.c under the registry
-- (components/monet_core/src/service_registry.c).
use esp_mo_net.Base.{[], ◌∷◌, refl, none, some, true, List, ℕ, ◌≡◌}
use esp_mo_net.Registry.{State, start, subscribed, start_subscriber, subscriber_queue, started}
use esp_mo_net.Service.{ServiceEntry, disabled, dispatch_task, msg_topic_end, find}
use esp_mo_net.Rtos.{Rtos, Task, subscriber_ctx}
use esp_mo_net.Camera.{dispatch}
use esp_mo_net.Message.{Msg, sensor_light}
use esp_mo_net.DataUploader.{data_uploader_light_desc}

-- Without a sink, a dispatcher only takes messages out of its queue.
dispatch-none : {W : Type 0} (ms : List Msg) (w : W) → (dispatch none ms w).1 ≡ w
unfolding dispatch
dispatch-none [] w = refl
dispatch-none (m ∷ ms) w = dispatch-none ms w

module _ (os : Rtos) where
  -- The task that a start of the light uploader creates.
  abbrev idle_task : State os → Task
  idle_task st = record {
    entry = dispatch_task;
    name = some "light_uploader_task";
    stack_size = 4096;
    priority = 5;
    arg = subscriber_ctx (subscriber_queue os st) 0;
  }

  abbrev pub ready : State os → State os
  ready st = subscribed os st (sensor_light ∷ msg_topic_end ∷ [])

  -- A start of the light uploader runs the dispatcher without a sink, which leaves the world as it
  -- is.
  registered_uploader_idle :
      {W : Type 0} (st : State os) (i : ℕ) (e : ServiceEntry) (task : ℕ) (ms : List Msg) (w : W)
      → find "light_uploader" st.entries ≡ some (i, e)
      → e.desc ≡ data_uploader_light_desc task
      → e.state ≡ disabled
      → os.heap_has_room st.world ≡ true
      → (start os st "light_uploader"
          ≡ some (started os (ready st) i e (os.task_create (ready st).world (idle_task st))))
        × ((dispatch none ms w).1 ≡ w)
  unfolding start start_subscriber
  registered_uploader_idle st i e task ms w found is idle room =
      (simp (found, is, idle, room) refl, dispatch-none ms w)
