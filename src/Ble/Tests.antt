-- ===== src/Ble/Tests.antt =====
-- Concrete runs of the prepared writes of components/service/src/ble_service.c.
use esp_mo_net.Ble.Profile.{
  disconnect, Server, init, create, reg, connect, fresh_profile, write_char, add_char, RawMacros,
}
use esp_mo_net.Base.{
  [], ◌∷◌, refl, none, some, ℕ, List, true, arith, length, replicate, sym, ◌>>=◌, ◌≡◌, ◌≤◌,
  length-replicate, ◌↔◌, ◌<◌, Ensures, ◌++◌, not, ◌&&◌, ◌^◌, false,
}
use esp_mo_net.Ble.Prepare.{
  Memory, PrepareEnv, WriteParam, empty_env, write_event_env, exec_write_event_env,
  prepare_buf_max_size,
}
use esp_mo_net.Ble.Execute.{
  Consecutive, write_all, InRange, sent, IsPrepared, long_write_round_trip, execute_overreads,
}
use esp_mo_net.Ble.LongWrite.{write_event_env-IsValid, Ends, overflows}
use esp_mo_net.Ble.Ready.{Input, run, gatts, ready, without_links, ready_ignores_links}
use esp_mo_net.Ble.Handlers.{
  gatts_event_handler, note_interface, call_handlers, handler_a, handler_b, shared_events,
  own_calls_a, own_calls_b, is_connected, GapEvent, adv_data_raw_set, scan_rsp_data_raw_set,
}
use esp_mo_net.Ble.Dispatch.{AnswersTo, answers_addressed}
use esp_mo_net.Ble.Advertise.{null, gap_run, sets_adv, sets_scan_rsp, advertising_waits, same_kind}

abbrev ample : Memory
ample = record { buf_room = true; rsp_room = true; rsp_size = 600 }

-- No macro is set; only that of the data is.
abbrev plain : RawMacros
plain = record { data_is_raw = false; events_are_raw = false }

abbrev raw_data_only : RawMacros
raw_data_only = record { data_is_raw = true; events_are_raw = false }

abbrev raw_answers : List GapEvent
raw_answers = adv_data_raw_set ∷ scan_rsp_data_raw_set ∷ []

-- A fragment of `len` bytes at an offset.
abbrev fragment : ℕ → ℕ → WriteParam
fragment offset len = record {
  conn_id = 0;
  trans_id = 7;
  handle = 42;
  offset = offset;
  len = len;
  need_rsp = true;
  is_prep = true;
  value = replicate len 5;
}

fragment-IsPrepared : (offset len : ℕ) → len ≤ 600 → IsPrepared ample (fragment offset len)
fragment-IsPrepared offset len small = record {
  fits = small;
  answered = refl;
  prepared = refl;
  whole = sym (length-replicate {A = ℕ} len 5);
}

abbrev two_parts : List WriteParam
two_parts = fragment 0 18 ∷ fragment 18 4 ∷ []

two_parts-Consecutive : Consecutive ample 0 two_parts
unfolding Consecutive
two_parts-Consecutive = (
  fragment-IsPrepared 0 18 (omega arith),
  refl,
  (fragment-IsPrepared 18 4 (omega arith), refl, tt),
)

two_parts_size : length (sent two_parts) ≤ prepare_buf_max_size
unfolding sent
two_parts_size = omega arith

long_write_round_trip_example :
    (write_all ample 3 empty_env two_parts >>= λ env. exec_write_event_env env true)
    ≡ some (empty_env, sent two_parts)
long_write_round_trip_example =
    long_write_round_trip ample 3 refl refl two_parts two_parts-Consecutive two_parts_size

-- The same 600 bytes twice.
abbrev twice : List WriteParam
twice = fragment 0 600 ∷ fragment 0 600 ∷ []

twice-InRange : InRange ample twice
unfolding InRange
twice-InRange = (
  fragment-IsPrepared 0 600 (omega arith),
  omega arith,
  (fragment-IsPrepared 0 600 (omega arith), omega arith, tt),
)

twice_size : length (sent twice) < 2 ^ 16
unfolding sent
twice_size = omega arith

execute_overreads_example :
    (env : PrepareEnv) × (write_all ample 3 empty_env twice ≡ some env)
    × ((exec_write_event_env env true ≡ none) ↔ (prepare_buf_max_size < length (sent twice)))
execute_overreads_example = execute_overreads ample 3 refl refl twice twice-InRange twice_size

-- A fragment beyond the buffer is refused; one beyond the response's array is copied all the same.
write_event_env-IsValid_example :
    Ends (overflows ample (fragment 1020 9)) (write_event_env ample 3 empty_env (fragment 1020 9))
write_event_env-IsValid_example =
    write_event_env-IsValid ample 3 empty_env (fragment 1020 9) tt (omega arith)

response_overflows : write_event_env ample 3 empty_env (fragment 0 601) ≡ none
unfolding write_event_env
response_overflows = refl

-- Both profiles are registered, at interfaces 3 and 4, and profile A has its characteristic.
abbrev set_up : List Input
set_up =
    gatts 3 (reg true 0) ∷ gatts 4 (reg true 1) ∷ gatts 3 (create 40) ∷ gatts 3 (add_char 42) ∷ []

-- A client comes, leaves, and another one comes.
abbrev with_clients : List Input
with_clients = set_up ++ (gatts 3 (connect 0) ∷ gatts 3 disconnect ∷ gatts 3 (connect 1) ∷ [])

with_clients-ready : ready (run plain ample init with_clients) ≡ some true
unfolding run gatts_event_handler note_interface call_handlers handler_a handler_b shared_events
    own_calls_a own_calls_b is_connected
with_clients-ready = refl

ready_ignores_links_example :
    ready (run plain ample init with_clients)
    ≡ ready (run plain ample init (without_links with_clients))
ready_ignores_links_example = ready_ignores_links plain ample with_clients (ground arith)

-- The server once both profiles are registered.
abbrev registered : Server
registered = record init {
  profile_a = record fresh_profile { gatts_if = 3 };
  profile_b = record fresh_profile { gatts_if = 4 };
}

answers_addressed_example :
    Ensures
      (AnswersTo 3 0)
      (gatts_event_handler plain ample 3 registered (write_char (fragment 0 18)))
answers_addressed_example =
    answers_addressed plain ample 3 registered (write_char (fragment 0 18)) (refl, refl)

advertising_waits_example :
    Ensures
      (λ (s', calls).
        null (gap_run raw_data_only s' raw_answers).1
        ≡ not (
            same_kind raw_data_only
            && (sets_adv true raw_answers && sets_scan_rsp true raw_answers)))
      (handler_a raw_data_only ample 3 init (reg true 0))
advertising_waits_example = advertising_waits raw_data_only ample 3 init 0 raw_answers (refl, refl)
