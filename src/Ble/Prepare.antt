-- ===== src/Ble/Prepare.antt =====
-- components/service/src/ble_service.c, prepared ("long") writes: example_write_event_env and
-- example_exec_write_event_env. `none` is an access outside the
-- buffer or outside the array of a response.
use esp_mo_net.Base.{
  [], ◌∷◌, ◌++◌, zero, suc, none, some, ℕ, Option, Bool, List, if◌then◌else◌, true, leb, ltb,
  replicate, take, ◌>>=◌, false, ◌+◌, length, drop, ◌%◌, ◌^◌,
}

-- `PREPARE_BUF_MAX_SIZE`
abbrev pub prepare_buf_max_size : ℕ
prepare_buf_max_size = 1024

-- `prepare_type_env_t`; the buffer is `none` while the pointer is NULL.
pub record PrepareEnv : Type 0 where
  pub prepare_buf : Option (List ℕ)
  pub prepare_len : ℕ

abbrev pub empty_env : PrepareEnv
empty_env = record { prepare_buf = none; prepare_len = 0 }

-- The statuses that the code answers with.
pub data GattStatus : Type 0 where
  gatt_ok invalid_offset invalid_attr_len no_resources : GattStatus

abbrev pub is_ok : GattStatus → Bool
is_ok gatt_ok = true
is_ok invalid_offset = false
is_ok invalid_attr_len = false
is_ok no_resources = false

-- `param->write`
pub record WriteParam : Type 0 where
  pub conn_id : ℕ
  pub trans_id : ℕ
  pub handle : ℕ
  pub offset : ℕ
  pub len : ℕ
  pub need_rsp : Bool
  pub is_prep : Bool
  pub value : List ℕ

-- `attr_value` of a response: handle, offset and value.
pub record AttrValue : Type 0 where
  pub attr_handle : ℕ
  pub attr_offset : ℕ
  pub attr_bytes : List ℕ

-- `esp_ble_gatts_send_response`
pub record Response : Type 0 where
  pub gatts_if : ℕ
  pub conn_id : ℕ
  pub trans_id : ℕ
  pub status : GattStatus
  pub rsp : Option AttrValue

-- Whether the two calls of `malloc` have room: for the buffer, and for the response; and the size of the array
-- `attr_value.value` of a response, which the stack fixes.
pub record Memory : Type 0 where
  pub buf_room : Bool
  pub rsp_room : Bool
  pub rsp_size : ℕ

-- memcpy(buf + offset, bytes, length bytes)
unfoldable pub copy_at : List ℕ → ℕ → List ℕ → Option (List ℕ)
copy_at buf offset bytes =
    if leb (offset + length bytes) (length buf)
    then some (take offset buf ++ (bytes ++ drop (offset + length bytes) buf))
    else none

abbrev pub check_range : WriteParam → GattStatus
check_range p =
    if ltb prepare_buf_max_size p.offset
    then invalid_offset
    else if ltb prepare_buf_max_size (p.offset + p.len)
    then invalid_attr_len
    else gatt_ok

-- The buffer is allocated with the first prepared write that is in range. Its bytes are what
-- `malloc` left there; the model takes zeros, and no theorem looks at bytes that were not written.
abbrev pub allocate : Bool → PrepareEnv → GattStatus → GattStatus × PrepareEnv
allocate buf_room env gatt_ok = elim env.prepare_buf [
  | some buf ↦ (gatt_ok, env)
  | none ↦
      if buf_room
      then (
        gatt_ok,
        record { prepare_buf = some (replicate prepare_buf_max_size 0); prepare_len = 0 },
      )
      else (no_resources, empty_env)
]
allocate buf_room env invalid_offset = (invalid_offset, env)
allocate buf_room env invalid_attr_len = (invalid_attr_len, env)
allocate buf_room env no_resources = (no_resources, env)

-- The response to a prepared write repeats what was written.
abbrev pub prepare_response : ℕ → WriteParam → GattStatus → Response
prepare_response gatts_if p status = record {
  gatts_if = gatts_if;
  conn_id = p.conn_id;
  trans_id = p.trans_id;
  status = status;
  rsp =
      some (record {
        attr_handle = p.handle;
        attr_offset = p.offset;
        attr_bytes = take p.len p.value;
      });
}

-- The bytes go into the buffer, unless an error was met.
abbrev pub store_fragment : PrepareEnv → WriteParam → GattStatus → Option PrepareEnv
store_fragment env p gatt_ok = elim env.prepare_buf [
  | none ↦ none
  | some buf ↦ copy_at buf p.offset (take p.len p.value) >>= λ buf'.
      some (record { prepare_buf = some buf'; prepare_len = env.prepare_len + p.len })
]
store_fragment env p invalid_offset = some env
store_fragment env p invalid_attr_len = some env
store_fragment env p no_resources = some env

abbrev pub with_responses : List Response → Option PrepareEnv → Option (PrepareEnv × List Response)
with_responses rs env = env >>= λ e. some (e, rs)

unfoldable pub prepare_write :
    Memory → ℕ → PrepareEnv → WriteParam → Option (PrepareEnv × List Response)
unfolding copy_at
prepare_write mem gatts_if env p =
    let (status, env') = allocate mem.buf_room env (check_range p) in
    if mem.rsp_room
    then if ltb mem.rsp_size p.len
      then none
      else with_responses (prepare_response gatts_if p status ∷ []) (store_fragment env' p status)
    else with_responses [] (some env')

-- `example_write_event_env`
unfoldable pub write_event_env :
    Memory → ℕ → PrepareEnv → WriteParam → Option (PrepareEnv × List Response)
unfolding prepare_write
write_event_env mem gatts_if env p =
    if p.need_rsp
    then if p.is_prep
      then prepare_write mem gatts_if env p
      else some (
        env,
        record {
          gatts_if = gatts_if;
          conn_id = p.conn_id;
          trans_id = p.trans_id;
          status = gatt_ok;
          rsp = none;
        }
            ∷ [],
      )
    else some (env, [])

-- `ESP_LOG_BUFFER_HEX` reads as many bytes as it is told; its length has 16 bits.
abbrev log_buffer : Option (List ℕ) → ℕ → Option (List ℕ)
log_buffer none zero = some []
log_buffer none (suc n) = none
log_buffer (some buf) n = if leb n (length buf) then some (take n buf) else none

-- `example_exec_write_event_env`: the flag says whether to execute or to cancel. The result is what
-- was logged.
unfoldable pub exec_write_event_env : PrepareEnv → Bool → Option (PrepareEnv × List ℕ)
exec_write_event_env env execute =
    (if execute then log_buffer env.prepare_buf (env.prepare_len % 2 ^ 16) else some [])
    >>= λ logged. some (empty_env, logged)
