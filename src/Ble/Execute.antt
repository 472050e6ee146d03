-- ===== src/Ble/Execute.antt =====
-- What a client's prepared writes store, and what their execution reads
-- (components/service/src/ble_service.c).
use mathlib.Core.List.{append-nil, append_assoc}
use esp_mo_net.Base.{
  [], ◌∷◌, ◌++◌, refl, zero, suc, none, some, Option, List, ◌≡◌, ℕ, true, replicate, length,
  length-replicate, ◌+◌, take, ◌≤◌, ltb, false, arith, ◌∙◌, ap, ◌>>=◌, length-append, take_whole,
  length-take, ◌↔◌, ◌<◌, ◌^◌,
}
use esp_mo_net.Ble.Prepare.{
  WriteParam, Memory, PrepareEnv, allocate, prepare_buf_max_size, gatt_ok, Response,
  write_event_env, prepare_write, prepare_response, exec_write_event_env, empty_env,
}
use esp_mo_net.Ble.LongWrite.{store_fragment-IsValid}

-- A prepared write as a client sends it: answered, with as many bytes as it says, and at most as many as the
-- response's array has.
pub record IsPrepared (mem : Memory) (p : WriteParam) : Type 0 where
  pub answered : p.need_rsp ≡ true
  pub prepared : p.is_prep ≡ true
  pub whole : p.len ≡ length p.value
  pub fits : p.len ≤ mem.rsp_size

-- The buffer's bytes, once there is one.
abbrev pub buffer : Option (List ℕ) → List ℕ
buffer none = replicate prepare_buf_max_size 0
buffer (some buf) = buf

-- Nothing is stored without a buffer, and the buffer has its size.
abbrev Opened : Option (List ℕ) → ℕ → Type 0
Opened none n = n ≡ 0
Opened (some buf) n = length buf ≡ prepare_buf_max_size

abbrev pub stored : List ℕ → ℕ → PrepareEnv
stored buf n = record { prepare_buf = some buf; prepare_len = n }

allocate_lem :
    (o : Option (List ℕ)) (n : ℕ)
    → Opened o n
    → (allocate true (record { prepare_buf = o; prepare_len = n }) gatt_ok
        ≡ (gatt_ok, stored (buffer o) n))
      × (length (buffer o) ≡ prepare_buf_max_size)
allocate_lem none n v = (rw v refl, length-replicate {A = ℕ} prepare_buf_max_size 0)
allocate_lem (some buf) n v = (refl, v)

-- What is left of an accepted fragment: its bytes at its offset, after those that were there.
Stored : List ℕ → ℕ → WriteParam → Option (PrepareEnv × List Response) → Type 0
Stored buf n p r =
    (buf' : List ℕ) × (rs : List Response) × (r ≡ some (stored buf' (n + p.len), rs))
    × (length buf' ≡ prepare_buf_max_size)
    × (take (p.offset + p.len) buf' ≡ take p.offset buf ++ p.value)

module _ (mem : Memory) (gatts_if : ℕ) (buf_room : mem.buf_room ≡ true)
    (rsp_room : mem.rsp_room ≡ true) where
  write_lem :
      (env : PrepareEnv) (p : WriteParam)
      → Opened env.prepare_buf env.prepare_len
      → IsPrepared mem p
      → p.offset + p.len ≤ prepare_buf_max_size
      → Stored (buffer env.prepare_buf) env.prepare_len p (write_event_env mem gatts_if env p)
  unfolding Stored write_event_env prepare_write
  write_lem env p v k range =
      let near : ltb prepare_buf_max_size p.offset ≡ false = ground arith in
      let short : ltb prepare_buf_max_size (p.offset + p.len) ≡ false = ground arith in
      let answerable : ltb mem.rsp_size p.len ≡ false = ground (arith, k.fits) in
      let (opened, size) = allocate_lem env.prepare_buf env.prepare_len v in
      let (buf', e, size', written) =
        store_fragment-IsValid (stored (buffer env.prepare_buf) env.prepare_len) p
          (buffer env.prepare_buf) refl size range (omega (arith, k.whole)) in
      (
        buf',
        prepare_response gatts_if p gatt_ok ∷ [],
        simp (k.answered, k.prepared, near, short, buf_room, opened, rsp_room, answerable, e),
        size',
        written
            ∙ ap (λ bytes. take p.offset (buffer env.prepare_buf) ++ bytes)
                (take_whole p.len p.value (omega (arith, k.whole, length-take {0} p.len p.value))),
      )

-- `prepare_buf` after the client's prepared writes, one after the other.
unfoldable pub write_all : Memory → ℕ → PrepareEnv → List WriteParam → Option PrepareEnv
write_all mem gatts_if env [] = some env
write_all mem gatts_if env (p ∷ ps) =
    write_event_env mem gatts_if env p >>= λ (env', rs). write_all mem gatts_if env' ps

-- The bytes that the client sent.
unfoldable pub sent : List WriteParam → List ℕ
sent [] = []
sent (p ∷ ps) = p.value ++ sent ps

-- Each fragment lies within the buffer.
unfoldable pub InRange : Memory → List WriteParam → Type 0
InRange mem [] = Unit
InRange mem (p ∷ ps) = IsPrepared mem p × (p.offset + p.len ≤ prepare_buf_max_size) × InRange mem ps

-- Each fragment follows its predecessor.
unfoldable pub Consecutive : Memory → ℕ → List WriteParam → Type 0
Consecutive mem n [] = Unit
Consecutive mem n (p ∷ ps) = IsPrepared mem p × (p.offset ≡ n) × Consecutive mem (n + p.len) ps

module _ (mem : Memory) (gatts_if : ℕ) (buf_room : mem.buf_room ≡ true)
    (rsp_room : mem.rsp_room ≡ true) where
  write_all_lem :
      (env : PrepareEnv) (ps : List WriteParam)
      → Opened env.prepare_buf env.prepare_len
      → InRange mem ps
      → (env' : PrepareEnv) × (write_all mem gatts_if env ps ≡ some env')
        × Opened env'.prepare_buf env'.prepare_len
        × (env'.prepare_len ≡ env.prepare_len + length (sent ps))
  unfolding Stored write_all sent InRange
  write_all_lem env [] v k = (env, refl, v, omega arith)
  write_all_lem env (p ∷ ps) v (k, range, ks) =
      let (buf', rs, e, size, _) = write_lem mem gatts_if buf_room rsp_room env p v k range in
      let (env', e', v', n) = write_all_lem (stored buf' (env.prepare_len + p.len)) ps size ks in
      (env', rw e e', v', omega (arith, n, k.whole, length-append {0} p.value (sent ps)))

  -- The bytes in front of the next fragment are those sent so far.
  consecutive_lem :
      (env : PrepareEnv) (ps : List WriteParam) (done : List ℕ)
      → Opened env.prepare_buf env.prepare_len
      → env.prepare_len ≡ length done
      → take (length done) (buffer env.prepare_buf) ≡ done
      → Consecutive mem (length done) ps
      → length done + length (sent ps) ≤ prepare_buf_max_size
      → (env' : PrepareEnv) × (write_all mem gatts_if env ps ≡ some env')
        × Opened env'.prepare_buf env'.prepare_len
        × (env'.prepare_len ≡ length (done ++ sent ps))
        × (take (length (done ++ sent ps)) (buffer env'.prepare_buf) ≡ done ++ sent ps)
  unfolding Stored write_all sent Consecutive
  consecutive_lem env [] done v n same k fits =
      (env, refl, v, rw (append-nil done) n, rw (append-nil done) same)
  consecutive_lem env (p ∷ ps) done v n same (k, at, ks) fits =
      let size_ps = length-append {0} p.value (sent ps) in
      let (buf', rs, e, size, written) =
        write_lem mem gatts_if buf_room rsp_room env p v k (omega (arith, k.whole)) in
      let size_done : length (done ++ p.value) ≡ length done + p.len =
        omega (arith, k.whole, length-append {0} done p.value) in
      let written' : take (length done + p.len) buf'
          ≡ take (length done) (buffer env.prepare_buf) ++ p.value =
        rw (← at) written in
      let (env', e', v', n', same') =
        consecutive_lem (stored buf' (env.prepare_len + p.len)) ps (done ++ p.value) size
          (omega (arith, size_done)) (rw size_done (written' ∙ ap (λ bytes. bytes ++ p.value) same))
          (rw size_done ks) (omega (arith, size_ps, size_done, k.whole)) in
      (
        env',
        rw e e',
        v',
        rw (← append_assoc done p.value (sent ps)) n',
        rw (← append_assoc done p.value (sent ps)) same',
      )

  -- What a client writes in consecutive prepared fragments from offset 0, up to 1024 bytes in all,
  -- is what their execution reads, and the buffer is given back afterwards. Memory suffices for
  -- the buffer and the responses, and no fragment is longer than the response's array.
  pub long_write_round_trip :
      (ps : List WriteParam)
      → Consecutive mem 0 ps
      → length (sent ps) ≤ prepare_buf_max_size
      → (write_all mem gatts_if empty_env ps >>= λ env. exec_write_event_env env true)
        ≡ some (empty_env, sent ps)
  unfolding exec_write_event_env
  long_write_round_trip ps k fits =
      let (env, e, v, n, same) =
        consecutive_lem empty_env ps [] refl refl refl k (omega (arith, fits)) in
      rw e (logged env.prepare_buf env.prepare_len v (omega (arith, n)) same)
    where
      logged :
          (o : Option (List ℕ)) (n : ℕ)
          → Opened o n
          → n ≡ length (sent ps)
          → take (length (sent ps)) (buffer o) ≡ sent ps
          → exec_write_event_env (record { prepare_buf = o; prepare_len = n }) true
            ≡ some (empty_env, sent ps)
      logged none zero v at same = ap (λ bytes. some (empty_env, bytes)) (rw (← at) at same)
      logged none (suc n) v at same = absurd (omega arith)
      logged (some buf) n v at same =
          ground (arith, length-take {0} (length (sent ps)) buf, ap length same)

  -- Whatever fragments are accepted within the buffer, their execution reads beyond the buffer
  -- exactly when their lengths add up to more than the buffer's 1024 bytes. They add up to less
  -- than 65536, memory suffices for the buffer and the responses, and no fragment is longer than
  -- the response's array.
  pub execute_overreads :
      (ps : List WriteParam)
      → InRange mem ps
      → length (sent ps) < 2 ^ 16
      → (env : PrepareEnv) × (write_all mem gatts_if empty_env ps ≡ some env)
        × ((exec_write_event_env env true ≡ none) ↔ (prepare_buf_max_size < length (sent ps)))
  unfolding exec_write_event_env
  execute_overreads ps k small =
      let (env, e, v, n) = write_all_lem empty_env ps refl k in
      (env, e, read env.prepare_buf env.prepare_len v (omega (arith, n)))
    where
      read :
          (o : Option (List ℕ)) (n : ℕ)
          → Opened o n
          → n ≡ length (sent ps)
          → (exec_write_event_env (record { prepare_buf = o; prepare_len = n }) true ≡ none)
            ↔ (prepare_buf_max_size < length (sent ps))
      read none zero v at = ground arith
      read none (suc n) v at = absurd (omega arith)
      read (some buf) n v at = ground arith
