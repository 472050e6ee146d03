-- ===== src/Ble/Setup.antt =====
-- The set-up of the BLE service, ble_service_task of components/service/src/ble_service.c, and the format of
-- components/utils/src/ble_format_utils.c.
use esp_mo_net.Base.{
  [], ◌∷◌, ◌++◌, true, false, List, ℕ, Bool, ◌%◌, if◌then◌else◌, ◌/◌, ◌<◌, ◌≡◌, ◌^◌, Bool-cases,
  arith, inl, inr,
}
use esp_mo_net.Message.{word_at_start}

-- The calls behind the flash's set-up, in the order of the code.
pub data SetupCall : Type 0 where
  controller_init controller_enable bluedroid_init bluedroid_enable : SetupCall
  gatts_register_callback gap_register_callback set_local_mtu : SetupCall
  app_register : ℕ → SetupCall

-- The calls whose failure ends the task.
abbrev required : List SetupCall
required =
    controller_init
    ∷ controller_enable
    ∷ bluedroid_init
    ∷ bluedroid_enable
    ∷ gatts_register_callback
    ∷ gap_register_callback
    ∷ app_register 0
    ∷ app_register 1
    ∷ []

-- The calls up to the first that fails; `vTaskDelete(NULL)` does not return. The flag says whether all passed.
unfoldable pub attempt : (SetupCall → Bool) → List SetupCall → List SetupCall × Bool
attempt passes [] = ([], true)
attempt passes (call ∷ calls) =
    let (made, all) = attempt passes calls in
    if passes call then (call ∷ made, all) else (call ∷ [], false)

-- `ble_service_task` behind the flash's set-up: the result of the last call is only logged.
unfoldable ble_service_task : (SetupCall → Bool) → List SetupCall
unfolding attempt
ble_service_task passes =
    let (made, all) = attempt passes required in if all then made ++ set_local_mtu ∷ [] else made

-- `ble_format_notify_data`, for an `int` given by its pattern.
unfoldable ble_format_notify_data : ℕ → List ℕ
ble_format_notify_data value =
    value % 256 ∷ (value / 2 ^ 8) % 256 ∷ (value / 2 ^ 16) % 256 ∷ (value / 2 ^ 24) % 256 ∷ []

-- A client reads the number back.
word_at_start-ble_format_notify_data :
    (value : ℕ) → value < 2 ^ 32 → word_at_start (ble_format_notify_data value) ≡ value
unfolding ble_format_notify_data word_at_start
word_at_start-ble_format_notify_data value h = omega arith

-- What was called before the last call passed.
abbrev BeforeLastPass : (SetupCall → Bool) → List SetupCall → Type 0
BeforeLastPass passes [] = Unit {0}
BeforeLastPass passes (c ∷ []) = Unit {0}
BeforeLastPass passes (c ∷ (d ∷ calls)) = (passes c ≡ true) × BeforeLastPass passes (d ∷ calls)

-- The task goes on only behind a call that passed.
attempt-BeforeLastPass :
    (passes : SetupCall → Bool) (calls : List SetupCall)
    → BeforeLastPass passes (attempt passes calls).0
unfolding attempt
attempt-BeforeLastPass passes [] = tt
attempt-BeforeLastPass passes (c ∷ calls) = elim (Bool-cases (passes c)) [
  | inl ok ↦ rw ok (onto (attempt passes calls).0 (attempt-BeforeLastPass passes calls) ok)
  | inr bad ↦ rw bad tt
]
  where
    onto :
        (made : List SetupCall)
        → BeforeLastPass passes made
        → passes c ≡ true
        → BeforeLastPass passes (c ∷ made)
    onto [] h ok = tt
    onto (d ∷ made) h ok = (ok, h)
