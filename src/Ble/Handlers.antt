-- ===== src/Ble/Handlers.antt =====
-- components/service/src/ble_service.c: the handlers of the two profiles, and the dispatch between
-- them.
use esp_mo_net.Base.{
  [], ◌∷◌, ◌++◌, zero, suc, none, some, ℕ, List, Bool, Option, ◌==◌, not, true, if◌then◌else◌,
  ◌>>=◌, false, ◌||◌, ◌&&◌,
}
use esp_mo_net.Ble.Prepare.{Memory}
use esp_mo_net.Ble.AdvData.{raw_adv_data, raw_scan_rsp_data, adv_data, scan_rsp_data}
use esp_mo_net.Ble.Profile.{
  disconnect, other, AdvConfig, Server, Profile, Event, Call, reg, read_char, set_device_name,
  RawMacros, config_adv_data_raw, config_scan_rsp_data_raw, create_service, char_uuid_a,
  char_uuid_b, gatt_if_none, send_response, config_adv_data, service_uuid_b, send_indicate,
  read_response, service_uuid_a, num_handles, start_advertising, write_char, connect, write_event,
  update_conn_params, exec_write, exec_event, create, read_write_notify, start_service, add_char_to,
  add_char, add_descr_to, add_char_descr,
}

-- What both handlers do with an event, but for their UUIDs; `reg`, `connect` and `disconnect` are
-- each handler's own.
unfoldable pub shared_events : Memory → ℕ → ℕ → Profile → Event → Option (Profile × List Call)
shared_events mem char_uuid gatts_if pr (reg ok app) = some (pr, [])
shared_events mem char_uuid gatts_if pr (read_char conn trans handle) =
    some (pr, send_response (read_response gatts_if conn trans handle) ∷ [])
shared_events mem char_uuid gatts_if pr (write_char p) = write_event mem gatts_if pr p
shared_events mem char_uuid gatts_if pr (exec_write conn trans execute) =
    exec_event gatts_if pr conn trans execute
shared_events mem char_uuid gatts_if pr (create service) = some (
  record pr { service_handle = service; property = read_write_notify },
  start_service service ∷ add_char_to service char_uuid read_write_notify ∷ [],
)
shared_events mem char_uuid gatts_if pr (add_char handle) =
    some (record pr { char_handle = handle }, add_descr_to pr.service_handle ∷ [])
shared_events mem char_uuid gatts_if pr (add_char_descr handle) =
    some (record pr { descr_handle = handle }, [])
shared_events mem char_uuid gatts_if pr (connect conn) = some (record pr { conn_id = conn }, [])
shared_events mem char_uuid gatts_if pr disconnect = some (pr, [])
shared_events mem char_uuid gatts_if pr other = some (pr, [])

-- What only profile A does: it sets up the advertising, and starts it again when a client leaves.
unfoldable pub own_calls_a : RawMacros → ℕ → Event → List Call
own_calls_a raw gatts_if (reg ok app) =
    set_device_name
    ∷ ((if raw.data_is_raw
          then config_adv_data_raw raw_adv_data ∷ config_scan_rsp_data_raw raw_scan_rsp_data ∷ []
          else config_adv_data adv_data ∷ config_adv_data scan_rsp_data ∷ [])
        ++ create_service gatts_if service_uuid_a num_handles ∷ [])
own_calls_a raw gatts_if (connect conn) = update_conn_params ∷ []
own_calls_a raw gatts_if disconnect = start_advertising ∷ []
own_calls_a raw gatts_if event = []

unfoldable pub own_calls_b : ℕ → Event → List Call
own_calls_b gatts_if (reg ok app) = create_service gatts_if service_uuid_b num_handles ∷ []
own_calls_b gatts_if event = []

-- A registration waits for both parts of the advertising data.
unfoldable pub adv_config_after : AdvConfig → Event → AdvConfig
adv_config_after adv (reg ok app) = record { adv_pending = true; scan_rsp_pending = true }
adv_config_after adv event = adv

-- `gatts_profile_a_event_handler`
unfoldable pub handler_a : RawMacros → Memory → ℕ → Server → Event → Option (Server × List Call)
unfolding shared_events own_calls_a adv_config_after
handler_a raw mem gatts_if s event =
    shared_events mem char_uuid_a gatts_if s.profile_a event >>= λ (pr, calls). some (
      record s { profile_a = pr; adv_config_done = adv_config_after s.adv_config_done event },
      own_calls_a raw gatts_if event ++ calls,
    )

-- `gatts_profile_b_event_handler`
unfoldable pub handler_b : Memory → ℕ → Server → Event → Option (Server × List Call)
unfolding shared_events own_calls_b
handler_b mem gatts_if s event =
    shared_events mem char_uuid_b gatts_if s.profile_b event >>= λ (pr, calls).
    some (record s { profile_b = pr }, own_calls_b gatts_if event ++ calls)

-- A registration that passed notes the interface of its profile; there are two rows. The flag says
-- whether the handlers are called at all.
unfoldable pub note_interface : ℕ → Server → Event → Option (Bool × Server)
note_interface gatts_if s (reg false app) = some (false, s)
note_interface gatts_if s (reg true zero) =
    some (true, record s { profile_a = record s.profile_a { gatts_if = gatts_if } })
note_interface gatts_if s (reg true (suc zero)) =
    some (true, record s { profile_b = record s.profile_b { gatts_if = gatts_if } })
note_interface gatts_if s (reg true app) = none
note_interface gatts_if s event = some (true, s)

-- Whether the loop calls a row's handler.
abbrev pub concerns : ℕ → Profile → Bool
concerns gatts_if pr = gatts_if == gatt_if_none || gatts_if == pr.gatts_if

-- The loop over the rows.
unfoldable pub call_handlers : RawMacros → Memory → ℕ → Server → Event → Option (Server × List Call)
unfolding handler_a handler_b
call_handlers raw mem gatts_if s event =
    (if concerns gatts_if s.profile_a then handler_a raw mem gatts_if s event else some (s, []))
    >>= λ (s₁, calls_a).
        (if concerns gatts_if s₁.profile_b then handler_b mem gatts_if s₁ event else some (s₁, []))
        >>= λ (s₂, calls_b). some (s₂, calls_a ++ calls_b)

-- `gatts_event_handler`
unfoldable pub gatts_event_handler :
    RawMacros → Memory → ℕ → Server → Event → Option (Server × List Call)
unfolding note_interface call_handlers
gatts_event_handler raw mem gatts_if s event = note_interface gatts_if s event >>= λ (goes_on, s').
    if goes_on then call_handlers raw mem gatts_if s' event else some (s', [])

-- Advertising starts once nothing is pending.
abbrev pub start_if_set : AdvConfig → List Call
start_if_set adv = if adv.adv_pending || adv.scan_rsp_pending then [] else start_advertising ∷ []

pub data GapEvent : Type 0 where
  adv_data_set scan_rsp_data_set adv_data_raw_set scan_rsp_data_raw_set gap_other : GapEvent

-- The events of the two cases that the macro leaves in the `switch`.
abbrev pub is_adv_set : Bool → GapEvent → Bool
is_adv_set true adv_data_raw_set = true
is_adv_set false adv_data_set = true
is_adv_set raw event = false

abbrev pub is_scan_rsp_set : Bool → GapEvent → Bool
is_scan_rsp_set true scan_rsp_data_raw_set = true
is_scan_rsp_set false scan_rsp_data_set = true
is_scan_rsp_set raw event = false

-- One part of the advertising data is set.
abbrev pub adv_config_set : Bool → GapEvent → AdvConfig → AdvConfig
adv_config_set raw event adv =
    if is_adv_set raw event
    then record adv { adv_pending = false }
    else if is_scan_rsp_set raw event
    then record adv { scan_rsp_pending = false }
    else adv

-- `gap_event_handler`
unfoldable pub gap_event_handler : RawMacros → Server → GapEvent → Server × List Call
gap_event_handler raw s event =
    let adv = adv_config_set raw.events_are_raw event s.adv_config_done in
    (
      record s { adv_config_done = adv },
      if is_adv_set raw.events_are_raw event || is_scan_rsp_set raw.events_are_raw event
          then start_if_set adv
          else [],
    )

-- `_profile_ready`, and with it `ble_service_is_connected`
unfoldable pub is_connected : Server → Bool
is_connected s =
    not (s.profile_a.gatts_if == gatt_if_none)
    && not (s.profile_a.conn_id == 0xFFFF)
    && not (s.profile_a.char_handle == 0)

-- `ble_service_notify_raw`; the stack's answer is the last argument.
unfoldable pub notify_raw : Server → List ℕ → Bool → Bool × List Call
unfolding is_connected
notify_raw s bytes ok =
    if is_connected s
    then (
      ok,
      send_indicate s.profile_a.gatts_if s.profile_a.conn_id s.profile_a.char_handle bytes false
          ∷ [],
    )
    else (false, [])
