-- ===== src/Ble/AdvData.antt =====
-- components/service/src/ble_service.c: the data that are advertised.
use esp_mo_net.Base.{[], ◌∷◌, ◌++◌, ℕ, List, Bool, false, true, ◌+◌}
use esp_mo_net.Format.{codes}

-- A UUID on the Bluetooth base, least significant byte first.
abbrev uuid_on_base : ℕ → List ℕ
uuid_on_base v =
    0xfb ∷ 0x34 ∷ 0x9b ∷ 0x5f ∷ 0x80 ∷ 0 ∷ 0 ∷ 0x80 ∷ 0 ∷ 0x10 ∷ 0 ∷ 0 ∷ v ∷ 0 ∷ 0 ∷ 0 ∷ []

abbrev adv_service_uuid128 : List ℕ
adv_service_uuid128 = uuid_on_base 0xEE ++ uuid_on_base 0xFF

-- `esp_ble_adv_data_t` with `appearance`, the manufacturer's and the service's data left at 0 and NULL.
pub record AdvData : Type 0 where
  set_scan_rsp : Bool
  include_name : Bool
  include_txpower : Bool
  min_interval : ℕ
  max_interval : ℕ
  service_uuid : List ℕ
  flag : ℕ

-- `ESP_BLE_ADV_FLAG_GEN_DISC | ESP_BLE_ADV_FLAG_BREDR_NOT_SPT`
abbrev adv_flag : ℕ
adv_flag = 2 + 4

abbrev pub adv_data : AdvData
adv_data = record {
  set_scan_rsp = false;
  include_name = true;
  include_txpower = false;
  min_interval = 0x0006;
  max_interval = 0x0010;
  service_uuid = adv_service_uuid128;
  flag = adv_flag;
}

abbrev pub scan_rsp_data : AdvData
scan_rsp_data = record {
  set_scan_rsp = true;
  include_name = true;
  include_txpower = true;
  min_interval = 0;
  max_interval = 0;
  service_uuid = adv_service_uuid128;
  flag = adv_flag;
}

-- Flags, the power, and one UUID: `ESP_BLE_AD_TYPE_FLAG` is 0x01, `_TX_PWR` 0x0A, `_16SRV_CMPL` 0x03.
abbrev pub raw_adv_data : List ℕ
raw_adv_data = 2 ∷ 0x01 ∷ 0x06 ∷ 2 ∷ 0x0A ∷ 0xEB ∷ 3 ∷ 0x03 ∷ 0xAB ∷ 0xCD ∷ []

-- The name: `ESP_BLE_AD_TYPE_NAME_CMPL` is 0x09.
abbrev pub raw_scan_rsp_data : List ℕ
raw_scan_rsp_data = 0x0F ∷ 0x09 ∷ codes "ESP_GATTS_DEMO"
