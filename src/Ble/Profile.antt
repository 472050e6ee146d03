-- ===== src/Ble/Profile.antt =====
-- components/service/src/ble_service.c: the table of profiles, the events of the GATT server and the
-- handlers of the two profiles. `none` is an access outside an array.
use mathlib.Core.Option
use esp_mo_net.Ble.AdvData.{AdvData}
use esp_mo_net.Base.{
  [], ◌∷◌, ◌++◌, none, some, ℕ, Bool, false, true, List, Option, ◌*◌, if◌then◌else◌, ◌>>=◌, ◌+◌,
  ◌==◌, ltb, ◌&&◌, length, map,
}
use esp_mo_net.Ble.Prepare.{
  empty_env, Memory, PrepareEnv, WriteParam, Response, exec_write_event_env, gatt_ok,
  write_event_env,
}

-- `ESP_GATT_IF_NONE`
abbrev pub gatt_if_none : ℕ
gatt_if_none = 0xFF

abbrev pub num_handles : ℕ
num_handles = 4

-- `GATTS_SERVICE_UUID_TEST_A` and `_B`, `GATTS_CHAR_UUID_TEST_A` and `_B`
abbrev pub service_uuid_a : ℕ
service_uuid_a = 0x00FF

abbrev pub service_uuid_b : ℕ
service_uuid_b = 0x00EE

abbrev pub char_uuid_a : ℕ
char_uuid_a = 0xFF01

abbrev pub char_uuid_b : ℕ
char_uuid_b = 0xEE01

-- The bits of `esp_gatt_char_prop_t` that the code sets or tests.
pub record CharProp : Type 0 where
  can_read : Bool
  can_write : Bool
  can_notify : Bool
  pub can_indicate : Bool

abbrev no_property : CharProp
no_property = record {
  can_read = false;
  can_write = false;
  can_notify = false;
  can_indicate = false;
}

abbrev pub read_write_notify : CharProp
read_write_notify = record {
  can_read = true;
  can_write = true;
  can_notify = true;
  can_indicate = false;
}

-- `struct gatts_profile_inst`, with the profile's `a_property` or `b_property` and its prepared
-- writes. The callback and the UUIDs are fixed for each profile.
pub record Profile : Type 0 where
  pub gatts_if : ℕ
  pub conn_id : ℕ
  pub service_handle : ℕ
  pub char_handle : ℕ
  pub descr_handle : ℕ
  pub property : CharProp
  pub prepare_env : PrepareEnv

-- A row of `gl_profile_tab` at the start: static storage is zero.
abbrev pub fresh_profile : Profile
fresh_profile = record {
  gatts_if = gatt_if_none;
  conn_id = 0;
  service_handle = 0;
  char_handle = 0;
  descr_handle = 0;
  property = no_property;
  prepare_env = empty_env;
}

-- `adv_config_done`, bit by bit.
pub record AdvConfig : Type 0 where
  pub adv_pending : Bool
  pub scan_rsp_pending : Bool

pub record Server : Type 0 where
  pub profile_a : Profile
  pub profile_b : Profile
  pub adv_config_done : AdvConfig

abbrev pub init : Server
init = record {
  profile_a = fresh_profile;
  profile_b = fresh_profile;
  adv_config_done = record { adv_pending = false; scan_rsp_pending = false };
}

-- `esp_gatts_cb_event_t` with the parameters that the handlers read; `other` stands for the events
-- that are only logged or left alone.
pub data Event : Type 0 where
  reg : (ok : Bool) → (app_id : ℕ) → Event
  read_char : (conn_id trans_id handle : ℕ) → Event
  write_char : WriteParam → Event
  exec_write : (conn_id trans_id : ℕ) → (execute : Bool) → Event
  create : (service_handle : ℕ) → Event
  add_char : (attr_handle : ℕ) → Event
  add_char_descr : (attr_handle : ℕ) → Event
  connect : (conn_id : ℕ) → Event
  disconnect : Event
  other : Event

-- The macros that choose raw advertising data: CONFIG_EXAMPLE_SET_RAW_ADV_DATA where the data are handed to the
-- stack, CONFIG_SET_RAW_ADV_DATA where its events come back.
pub record RawMacros : Type 0 where
  pub data_is_raw : Bool
  pub events_are_raw : Bool

-- What the handlers ask of the stack.
pub data Call : Type 0 where
  set_device_name : Call
  config_adv_data : AdvData → Call
  config_adv_data_raw config_scan_rsp_data_raw : List ℕ → Call
  create_service : (gatts_if uuid handles : ℕ) → Call
  start_service : (service_handle : ℕ) → Call
  add_char_to : (service_handle uuid : ℕ) → CharProp → Call
  add_descr_to : (service_handle : ℕ) → Call
  send_response : Response → Call
  send_indicate : (gatts_if conn_id char_handle : ℕ) → List ℕ → (need_confirm : Bool) → Call
  update_conn_params : Call
  start_advertising : Call

-- `notify_data` and `indicate_data`: i % 0xff for each i below 15.
abbrev demo_data : List ℕ
demo_data = 0 ∷ 1 ∷ 2 ∷ 3 ∷ 4 ∷ 5 ∷ 6 ∷ 7 ∷ 8 ∷ 9 ∷ 10 ∷ 11 ∷ 12 ∷ 13 ∷ 14 ∷ []

-- value[1] << 8 | value[0]
abbrev pub descr_value : List ℕ → Option ℕ
descr_value (lo ∷ hi ∷ rest) = some (hi * 256 + lo)
descr_value bytes = none

-- A client switches notifications or indications on.
abbrev pub switch_on : Profile → ℕ → WriteParam → ℕ → List Call
switch_on pr gatts_if p value =
    if value == 1
    then if pr.property.can_notify
      then send_indicate gatts_if p.conn_id pr.char_handle demo_data false ∷ []
      else []
    else if value == 2 && pr.property.can_indicate
    then send_indicate gatts_if p.conn_id pr.char_handle demo_data true ∷ []
    else []

-- The part of a write that is not prepared: its bytes are logged, and the descriptor may be set.
unfoldable pub plain_write : Profile → ℕ → WriteParam → Option (List Call)
plain_write pr gatts_if p =
    if p.is_prep
    then some []
    else if ltb (length p.value) p.len
    then none
    else if pr.descr_handle == p.handle && p.len == 2
    then Option.map (switch_on pr gatts_if p) (descr_value p.value)
    else some []

-- `ESP_GATTS_WRITE_EVT`
unfoldable pub write_event : Memory → ℕ → Profile → WriteParam → Option (Profile × List Call)
write_event mem gatts_if pr p = plain_write pr gatts_if p >>= λ calls.
    write_event_env mem gatts_if pr.prepare_env p >>= λ (env, rs).
    some (record pr { prepare_env = env }, calls ++ map send_response rs)

-- `ESP_GATTS_EXEC_WRITE_EVT`: the answer is sent before the buffer is read.
unfoldable pub exec_event : ℕ → Profile → ℕ → ℕ → Bool → Option (Profile × List Call)
exec_event gatts_if pr conn trans execute =
    exec_write_event_env pr.prepare_env execute >>= λ (env, logged). some (
      record pr { prepare_env = env },
      send_response (record {
        gatts_if = gatts_if;
        conn_id = conn;
        trans_id = trans;
        status = gatt_ok;
        rsp = none;
      })
          ∷ [],
    )

-- `ESP_GATTS_READ_EVT`
abbrev pub read_response : ℕ → ℕ → ℕ → ℕ → Response
read_response gatts_if conn trans handle = record {
  gatts_if = gatts_if;
  conn_id = conn;
  trans_id = trans;
  status = gatt_ok;
  rsp = some (record {
    attr_handle = handle;
    attr_offset = 0;
    attr_bytes = 0xDE ∷ 0xED ∷ 0xBE ∷ 0xEF ∷ [];
  });
}
