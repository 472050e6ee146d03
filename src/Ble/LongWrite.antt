-- ===== src/Ble/LongWrite.antt =====
-- What a client's prepared writes and their execution amount to
-- (components/service/src/ble_service.c).
use mathlib.Core.List.{append_assoc}
use esp_mo_net.Base.{
  [], ◌++◌, refl, none, some, Option, List, ℕ, length, ◌+◌, ◌≡◌, ◌≤◌, take, leb, arith, true,
  length-take, drop, ◌∙◌, length-append, ap, length-drop, sym, take-append, Bool-cases, inl, inr,
  false, replicate, ◌⊎◌, length-replicate, ltb, Bool, ◌∷◌, ◌&&◌,
}
use esp_mo_net.Ble.Prepare.{
  PrepareEnv, copy_at, WriteParam, prepare_buf_max_size, store_fragment, gatt_ok, write_event_env,
  Memory, Response, GattStatus, allocate, prepare_write, invalid_offset, invalid_attr_len,
  no_resources, prepare_response, is_ok, check_range,
}

abbrev IsBuffer : Option (List ℕ) → Type 0
IsBuffer none = Unit {0}
IsBuffer (some buf) = length buf ≡ prepare_buf_max_size

-- The buffer has its full size once it exists.
abbrev pub IsValid : PrepareEnv → Type 0
IsValid env = IsBuffer env.prepare_buf

copy_at_lem :
    (buf : List ℕ) (offset : ℕ) (bytes : List ℕ)
    → offset + length bytes ≤ length buf
    → (buf' : List ℕ) × (copy_at buf offset bytes ≡ some buf')
      × (length buf' ≡ length buf)
      × (take (offset + length bytes) buf' ≡ take offset buf ++ bytes)
unfolding copy_at
copy_at_lem buf offset bytes h =
    let fits : leb (offset + length bytes) (length buf) ≡ true = ground arith in
    let pre = take offset buf in
    let rest = drop (offset + length bytes) buf in
    let pre_len : length pre ≡ offset = omega (arith, length-take {0} offset buf) in
    let size : offset + length bytes ≡ length (pre ++ bytes) =
      omega (arith, length-append {0} pre bytes) in
    (
      pre ++ (bytes ++ rest),
      rw fits,
      omega (
        arith,
        length-append {0} pre (bytes ++ rest),
        length-append {0} bytes rest,
        length-drop {0} (offset + length bytes) buf,
      ),
      rw (← append_assoc pre bytes rest, size) (take-append (pre ++ bytes) _),
    )

pub store_fragment-IsValid :
    (env : PrepareEnv) (p : WriteParam) (buf : List ℕ)
    → env.prepare_buf ≡ some buf
    → length buf ≡ prepare_buf_max_size
    → p.offset + p.len ≤ prepare_buf_max_size
    → p.len ≤ length p.value
    → (buf' : List ℕ) × (store_fragment env p gatt_ok
        ≡ some (record { prepare_buf = some buf'; prepare_len = env.prepare_len + p.len }))
      × (length buf' ≡ prepare_buf_max_size)
      × (take (p.offset + p.len) buf' ≡ take p.offset buf ++ take p.len p.value)
store_fragment-IsValid env p buf at size range long =
    let bytes = take p.len p.value in
    let bytes_len : length bytes ≡ p.len = omega (arith, length-take {0} p.len p.value) in
    let (buf', copied, same, written) = copy_at_lem buf p.offset bytes (omega arith) in
    (
      buf',
      rw at (rw copied),
      same ∙ size,
      ap (λ n. take (p.offset + n) buf') (sym bytes_len) ∙ written,
    )

-- What the first part of a prepared write decides: an error, or a buffer and a range within it.
Allocated : WriteParam → GattStatus × PrepareEnv → Type 0
Allocated p (status, env) =
    (IsValid env × (is_ok status ≡ false))
    ⊎ ((buf : List ℕ) × (status ≡ gatt_ok)
        × (env.prepare_buf ≡ some buf)
        × (length buf ≡ prepare_buf_max_size)
        × (p.offset + p.len ≤ prepare_buf_max_size))

allocate-Allocated :
    (buf_room : Bool) (env : PrepareEnv) (p : WriteParam)
    → IsValid env
    → Allocated p (allocate buf_room env (check_range p))
unfolding Allocated
allocate-Allocated buf_room env p v = elim (Bool-cases (ltb prepare_buf_max_size p.offset)) [
  | inl far ↦ rw far (inl (v, refl))
  | inr near ↦ elim (Bool-cases (ltb prepare_buf_max_size (p.offset + p.len))) [
    | inl long ↦ rw (near, long) (inl (v, refl))
    | inr short ↦ rw (near, short) (buffered env.prepare_buf refl (ground arith))
  ]
]
  where
    buffered :
        (o : Option (List ℕ))
        → env.prepare_buf ≡ o
        → p.offset + p.len ≤ prepare_buf_max_size
        → Allocated p (allocate buf_room env gatt_ok)
    buffered none at range = elim (Bool-cases buf_room) [
      | inl room ↦ rw room (
          rw at (
            inr (
              replicate prepare_buf_max_size 0,
              refl,
              refl,
              length-replicate {A = ℕ} prepare_buf_max_size 0,
              range,
            )))
      | inr short ↦ rw short (rw at (inl (tt, refl)))
    ]
    buffered (some buf) at range = rw at (inr (buf, refl, refl, rw at at v, range))

-- The write of a fragment, error or not.
store-IsValid :
    (p : WriteParam) (r : GattStatus × PrepareEnv)
    → Allocated p r
    → p.len ≤ length p.value
    → (env' : PrepareEnv) × (store_fragment r.1 p r.0 ≡ some env') × IsValid env' × IsValid r.1
unfolding Allocated
store-IsValid p (status, env) (inl (v, bad)) long = (env, not_stored status bad, v, v)
  where
    not_stored : (s : GattStatus) → is_ok s ≡ false → store_fragment env p s ≡ some env
    not_stored gatt_ok e = absurd (cc)
    not_stored invalid_offset e = refl
    not_stored invalid_attr_len e = refl
    not_stored no_resources e = refl
store-IsValid p (status, env) (inr (buf, ok, at, size, range)) long =
    let (buf', stored, size', _) = store_fragment-IsValid env p buf at size range long in
    (
      record { prepare_buf = some buf'; prepare_len = env.prepare_len + p.len },
      rw ok stored,
      size',
      rw at size,
    )

-- The copy into the response has no bound: a fragment may be longer than the response's array.
abbrev pub overflows : Memory → WriteParam → Bool
overflows mem p = p.need_rsp && (p.is_prep && (mem.rsp_room && ltb mem.rsp_size p.len))

-- Nothing outside is touched, and the buffer is as it should be.
abbrev Fine : Option (PrepareEnv × List Response) → Type 0
Fine r = (env' : PrepareEnv) × (rs : List Response) × (r ≡ some (env', rs)) × IsValid env'

-- How a write ends.
abbrev pub Ends : Bool → Option (PrepareEnv × List Response) → Type 0
Ends beyond r = ((beyond ≡ true) × (r ≡ none)) ⊎ ((beyond ≡ false) × Fine r)

prepare_write-IsValid :
    (mem : Memory) (gatts_if : ℕ) (env : PrepareEnv) (p : WriteParam)
    → IsValid env
    → p.len ≤ length p.value
    → Ends (mem.rsp_room && ltb mem.rsp_size p.len) (prepare_write mem gatts_if env p)
unfolding prepare_write
prepare_write-IsValid mem gatts_if env p v long =
    let r = allocate mem.buf_room env (check_range p) in
    let (env', stored, v', kept) =
      store-IsValid p r (allocate-Allocated mem.buf_room env p v) long in
    elim (Bool-cases mem.rsp_room) [
      | inr short ↦ rw short (inr (refl, (r.1, [], refl, kept)))
      | inl room ↦ elim (Bool-cases (ltb mem.rsp_size p.len)) [
        | inl beyond ↦ rw (room, beyond) (inl (refl, refl))
        | inr fits ↦
            rw (room, fits)
              (inr (refl, (env', prepare_response gatts_if p r.0 ∷ [], rw stored, v')))
      ]
    ]

-- A write touches memory outside the prepare buffer and the response exactly when it is a prepared
-- one that wants an answer, memory suffices for the response, and it is longer than the response's
-- array; otherwise it leaves the buffer unallocated or of its full size, whatever offset and
-- length the client asks for and whichever allocation fails. The buffer was so before, and the
-- client's value has as many bytes as it says.
pub write_event_env-IsValid :
    (mem : Memory) (gatts_if : ℕ) (env : PrepareEnv) (p : WriteParam)
    → IsValid env
    → p.len ≤ length p.value
    → Ends (overflows mem p) (write_event_env mem gatts_if env p)
unfolding write_event_env
write_event_env-IsValid mem gatts_if env p v long = elim (Bool-cases p.need_rsp) [
  | inr silent ↦ rw silent (inr (refl, (env, [], refl, v)))
  | inl answered ↦ elim (Bool-cases p.is_prep) [
    | inr plain ↦ rw (answered, plain) (inr (refl, (env, _, refl, v)))
    | inl prepared ↦ rw (answered, prepared) (prepare_write-IsValid mem gatts_if env p v long)
  ]
]
