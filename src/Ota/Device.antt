-- ===== src/Ota/Device.antt =====
-- The device's side of an update: components/OTA/src/https_ota_service.c and ota_test_task of main/main.c.
use esp_mo_net.Rtos.{Rtos, Task, null}
use esp_mo_net.Base.{[], ◌∷◌, zero, suc, ℕ, List, Bool, true, false, some}
use esp_mo_net.Format.{codes}

-- `OTA_URL`
abbrev pub ota_url : List ℕ
ota_url = codes "https://40.233.83.32:8443/firmware.bin"

-- What the tasks ask of the system. `https_ota` is `esp_https_ota`, which writes the new firmware.
pub data UpdateCall : Type 0 where
  https_ota : (url : List ℕ) → (timeout_ms : ℕ) → UpdateCall
  delay : (ms : ℕ) → UpdateCall
  restart delete_self : UpdateCall

-- `ota_task`, for whether `esp_https_ota` passed; `esp_restart` does not return.
unfoldable pub ota_task : Bool → List UpdateCall
ota_task true = https_ota ota_url 10000 ∷ delay 1000 ∷ restart ∷ []
ota_task false = https_ota ota_url 10000 ∷ delete_self ∷ []

-- The address of `ota_task`.
abbrev ota_task_entry : ℕ
ota_task_entry = 4

abbrev pub update_task : Task
update_task = record {
  entry = ota_task_entry;
  name = some "ota_task";
  stack_size = 8192;
  priority = 5;
  arg = null;
}

module _ (os : Rtos) where
  open os use {World}

  -- `ota_service_start`
  abbrev pub ota_service_start : World → World
  ota_service_start w = (os.task_create w update_task).1

  -- The loop of `ota_test_task`, for the rounds that are left.
  unfoldable count_seconds : ℕ → List UpdateCall → List UpdateCall
  count_seconds zero calls = calls
  count_seconds (suc left) calls = delay 1000 ∷ count_seconds left calls

  -- `ota_test_task`
  unfoldable pub ota_test_task : World → List UpdateCall × World
  unfolding count_seconds
  ota_test_task w = (count_seconds 30 (delete_self ∷ []), ota_service_start w)
