-- ===== src/App.antt =====
-- main/main.c: the start of the program. What the drivers answer (the flash's set-up, the Wi-Fi's) and what
-- the configuration chooses are arguments; the addresses of the tasks and of the sink are numbers.
pub mod Routes
pub mod Start
pub mod Wired
pub mod Reading
mod Tests
use esp_mo_net.Base.{
  [], ◌∷◌, ◌++◌, refl, zero, suc, none, some, true, false, List, ℕ, Bool, if◌then◌else◌, Option,
  ◌&&◌, not,
}
use esp_mo_net.Registry.{State, start_all}
use esp_mo_net.Service.{ServiceDesc, subscriber, register, msg_topic_end}
use esp_mo_net.Rtos.{Rtos}
use esp_mo_net.Sensors.{light_sensor_desc}
use esp_mo_net.Mjpeg.{mjpeg_service_desc}
use esp_mo_net.Message.{group_sensor, sensor_light, sensor_jpeg}
use esp_mo_net.Wifi.{Wifi, WifiEvent}
use esp_mo_net.Wifi.Station.{start_and_wait}

-- `http_topics`, as the routes of the configuration choose them: the group, light, frames.
unfoldable pub http_topics : Bool → Bool → Bool → List ℕ
http_topics group light jpeg =
    (if group then group_sensor ∷ [] else [])
    ++ ((if light then sensor_light ∷ [] else [])
        ++ ((if jpeg then sensor_jpeg ∷ [] else []) ++ msg_topic_end ∷ []))

-- The uploader's descriptor; `sink` is the address of `http_sink_handler`.
abbrev pub http_uploader_desc : List ℕ → ℕ → ServiceDesc
http_uploader_desc topics sink = record {
  name = some "http_uploader";
  task_fn = 0;
  task_name = none;
  stack_size = 4096;
  priority = 5;
  role = subscriber;
  topics = some topics;
  sink_cb = sink;
}

-- `get_http_uploader_service`: NULL where the configuration leaves it out.
abbrev get_http_uploader_service : Bool → List ℕ → ℕ → Option ServiceDesc
get_http_uploader_service enabled topics sink =
    if enabled then some (http_uploader_desc topics sink) else none

-- What `nvs_flash_init` returns.
pub data NvsResult : Type 0 where
  nvs_ok no_free_pages new_version_found other_error : NvsResult

-- Whether the program goes on behind the flash's set-up: `ESP_ERROR_CHECK` ends it. The arguments are the
-- first result, whether the erasure worked, and whether the second attempt did.
unfoldable pub nvs_setup : NvsResult → Bool → Bool → Bool
nvs_setup no_free_pages erased again = erased && again
nvs_setup new_version_found erased again = erased && again
nvs_setup nvs_ok erased again = true
nvs_setup other_error erased again = true

-- The addresses that the descriptors hold.
pub record Addresses : Type 0 where
  pub light_sensor_task : ℕ
  pub http_sink_handler : ℕ
  pub mjpeg_service_task : ℕ

-- The configuration and the answers.
pub record Boot : Type 0 where
  pub uploader_enabled : Bool
  pub topics : List ℕ
  pub nvs : NvsResult
  pub erased : Bool
  pub again : Bool
  -- The station, and the events of the ten seconds that are waited.
  pub wifi : Wifi
  pub wifi_events : List WifiEvent

module _ (os : Rtos) (at : Addresses) where
  -- `service_registry_register` on the state.
  abbrev pub add : Option ServiceDesc → State os → State os
  add desc st = record st { entries = register desc st.entries }

  abbrev pub add_light : State os → State os
  add_light st = add (some (light_sensor_desc at.light_sensor_task)) st

  abbrev pub add_others : Boot → State os → State os
  add_others boot st =
      add (some (mjpeg_service_desc at.mjpeg_service_task))
        (add (get_http_uploader_service boot.uploader_enabled boot.topics at.http_sink_handler) st)

  -- `app_main` up to its endless loop; `none` is an abort, or a fault of a start.
  unfoldable pub app_main : Boot → State os → Option (State os)
  app_main boot st =
      if not (nvs_setup boot.nvs boot.erased boot.again)
      then none
      else if not (start_and_wait boot.wifi boot.wifi_events).0
      then some (add_light st)
      else start_all os (add_others boot (add_light st))
