-- ===== src/Ota/Tests.antt =====
-- Downloads from server/src/handlers/ota_handler.c, and the device's side of an update.
use esp_mo_net.Ota.{no_range, ota_handler, from}
use esp_mo_net.Ota.Device.{ota_url, ota_test_task, update_task}
use esp_mo_net.Server.Router.{router_dispatch, handled_by, to_ota}
use esp_mo_net.Rtos.Simple.{simple, quiet}
use esp_mo_net.Base.{refl, [], ◌∷◌, ◌++◌, some, List, take, ℕ, ◌≡◌, arith, length, drop}
use esp_mo_net.Ota.Resume.{resume_completes}
use esp_mo_net.Format.Read.{strip}
use esp_mo_net.Format.{codes}

abbrev firmware : List ℕ
firmware = 7 ∷ 8 ∷ 9 ∷ []

resume_completes_example :
    take 2 (ota_handler (some firmware) no_range 5).1 ++ (ota_handler (some firmware) (from 2) 5).1
    ≡ firmware
resume_completes_example = resume_completes firmware 2 5 (omega arith) (omega arith)

-- The path of the device's URL, behind the scheme, the address and the port, is the server's route to the
-- firmware.
firmware_routed :
    router_dispatch
      (codes "GET " ++ (drop 25 ota_url ++ (codes " HTTP/1.1" ++ (13 ∷ 10 ∷ 13 ∷ 10 ∷ []))))
    ≡ handled_by to_ota (some [])
unfolding router_dispatch strip
firmware_routed = refl

test_task_runs :
    (length (ota_test_task simple quiet).0 ≡ 31)
    × ((ota_test_task simple quiet).1.tasks ≡ update_task ∷ [])
unfolding ota_test_task
test_task_runs = (refl, refl)
