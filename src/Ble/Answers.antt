-- ===== src/Ble/Answers.antt =====
-- Where the answers of components/service/src/ble_service.c go: which interface and connection, and
-- whether a confirmation is asked for.
use mathlib.Core.Option
use esp_mo_net.Base.{
  true, false, [], ◌∷◌, ◌++◌, refl, none, some, ℕ, ◌≡◌, false, Ensures, All, Bool-cases, inr, arith,
  inl, Bool, List, Option, map, if◌then◌else◌, ◌>>=◌, All-append, Option-cases, ltb, length, ◌==◌,
  ◌&&◌,
}
use esp_mo_net.Ble.Profile.{
  disconnect, other, Event, Profile, read_char, Call, write_char, send_response, exec_write,
  send_indicate, switch_on, write_event, plain_write, exec_event, reg, create, connect, add_char,
  add_char_descr, descr_value,
}
use esp_mo_net.Ble.Prepare.{
  write_event_env, prepare_write, WriteParam, Memory, PrepareEnv, Response, GattStatus,
  with_responses, prepare_response, store_fragment, allocate, check_range, exec_write_event_env,
}
use esp_mo_net.Ble.Handlers.{shared_events}

-- The connection that an event is about.
abbrev pub event_conn : Event → ℕ
event_conn (read_char conn trans handle) = conn
event_conn (write_char p) = p.conn_id
event_conn (exec_write conn trans execute) = conn
event_conn event = 0

-- A response or a notification goes to one interface and connection, and asks for no confirmation.
abbrev pub IsAddressed : ℕ → ℕ → Call → Type 0
IsAddressed g conn (send_response r) = (r.gatts_if ≡ g) × (r.conn_id ≡ conn)
IsAddressed g conn (send_indicate g' conn' char bytes confirm) =
    (g' ≡ g) × (conn' ≡ conn) × (confirm ≡ false)
IsAddressed g conn call = Unit {0}

-- The interface and the connection of a response.
abbrev Answers : ℕ → ℕ → Response → Type 0
Answers g conn r = (r.gatts_if ≡ g) × (r.conn_id ≡ conn)

with_responses-All :
    (P : Response → Type 0) (rs : List Response) (o : Option PrepareEnv)
    → All P rs
    → Ensures (λ r. All P r.1) (with_responses rs o)
with_responses-All P rs none h = tt
with_responses-All P rs (some env) h = h

prepare_write-Addressed :
    (mem : Memory) (g : ℕ) (env : PrepareEnv) (p : WriteParam)
    → Ensures (λ r. All (Answers g p.conn_id) r.1) (prepare_write mem g env p)
unfolding prepare_write
prepare_write-Addressed mem g env p =
    by_room mem.rsp_room (ltb mem.rsp_size p.len) (allocate mem.buf_room env (check_range p))
  where
    by_room :
        (room beyond : Bool) (r : GattStatus × PrepareEnv)
        → Ensures
            (λ x. All (Answers g p.conn_id) x.1)
            (if room
              then if beyond
                then none
                else with_responses (prepare_response g p r.0 ∷ []) (store_fragment r.1 p r.0)
              else with_responses [] (some r.1))
    by_room true true r = tt
    by_room true false r =
        with_responses-All (Answers g p.conn_id) (prepare_response g p r.0 ∷ [])
          (store_fragment r.1 p r.0) ((refl, refl), tt)
    by_room false beyond r = tt

write_event_env-Addressed :
    (mem : Memory) (g : ℕ) (env : PrepareEnv) (p : WriteParam)
    → Ensures
        (λ r. All (λ x. (x.gatts_if ≡ g) × (x.conn_id ≡ p.conn_id)) r.1)
        (write_event_env mem g env p)
unfolding write_event_env prepare_write
write_event_env-Addressed mem g env p = elim (Bool-cases p.need_rsp) [
  | inr silent ↦ simp silent tt
  | inl answered ↦ elim (Bool-cases p.is_prep) [
    | inr plain ↦ simp (answered, plain) ((refl, refl), tt)
    | inl prepared ↦ simp (answered, prepared) (prepare_write-Addressed mem g env p)
  ]
]

switch_on-Addressed :
    (pr : Profile) (g : ℕ) (p : WriteParam) (value : ℕ)
    → pr.property.can_indicate ≡ false
    → All (IsAddressed g p.conn_id) (switch_on pr g p value)
switch_on-Addressed pr g p value silent = ground arith

plain_write-Addressed :
    (pr : Profile) (g : ℕ) (p : WriteParam)
    → pr.property.can_indicate ≡ false
    → Ensures (All (IsAddressed g p.conn_id)) (plain_write pr g p)
unfolding plain_write
plain_write-Addressed pr g p silent =
    cases p.is_prep (ltb (length p.value) p.len) (pr.descr_handle == p.handle && p.len == 2)
      (descr_value p.value)
  where
    cases :
        (prepared short sets : Bool) (o : Option ℕ)
        → Ensures (All (IsAddressed g p.conn_id)) (
            if prepared
            then some []
            else if short
            then none
            else if sets
            then Option.map (switch_on pr g p) o
            else some [])
    cases true short sets o = tt
    cases false true sets o = tt
    cases false false false o = tt
    cases false false true none = tt
    cases false false true (some value) = switch_on-Addressed pr g p value silent

map_send :
    (g conn : ℕ) (rs : List Response)
    → All (Answers g conn) rs
    → All (IsAddressed g conn) (map send_response rs)
map_send g conn [] h = tt
map_send g conn (r ∷ rs) (h, hs) = (h, map_send g conn rs hs)

-- A profile that does not indicate, and what its handler asks for.
abbrev pub Quiet : ℕ → ℕ → Profile × List Call → Type 0
Quiet g conn (pr, calls) = (pr.property.can_indicate ≡ false) × All (IsAddressed g conn) calls

write-Quiet :
    (mem : Memory) (g : ℕ) (pr : Profile) (p : WriteParam)
    → pr.property.can_indicate ≡ false
    → Ensures (Quiet g p.conn_id) (write_event mem g pr p)
unfolding write_event
write-Quiet mem g pr p silent =
    both (plain_write pr g p) (write_event_env mem g pr.prepare_env p)
      (plain_write-Addressed pr g p silent) (write_event_env-Addressed mem g pr.prepare_env p)
  where
    both :
        (o : Option (List Call)) (o' : Option (PrepareEnv × List Response))
        → Ensures (All (IsAddressed g p.conn_id)) o
        → Ensures (λ r. All (Answers g p.conn_id) r.1) o'
        → Ensures (Quiet g p.conn_id) (
            o >>= λ calls. o' >>= λ (env, rs).
            some (record pr { prepare_env = env }, calls ++ map send_response rs))
    both none o' h h' = tt
    both (some calls) none h h' = tt
    both (some calls) (some (env, rs)) h h' = (
      silent,
      All-append (IsAddressed g p.conn_id) calls (map send_response rs) h
          (map_send g p.conn_id rs h'),
    )

exec-Quiet :
    (g : ℕ) (pr : Profile) (conn trans : ℕ) (execute : Bool)
    → pr.property.can_indicate ≡ false
    → Ensures (Quiet g conn) (exec_event g pr conn trans execute)
unfolding exec_event
exec-Quiet g pr conn trans execute silent =
    elim (Option-cases (exec_write_event_env pr.prepare_env execute)) [
      | inl fault ↦ rw fault tt
      | inr (r, e) ↦ rw e (silent, ((refl, refl), tt))
    ]

pub shared-Quiet :
    (mem : Memory) (uuid g : ℕ) (pr : Profile) (event : Event)
    → pr.property.can_indicate ≡ false
    → Ensures (Quiet g (event_conn event)) (shared_events mem uuid g pr event)
unfolding shared_events
shared-Quiet mem uuid g pr (reg ok app) k = (k, tt)
shared-Quiet mem uuid g pr (read_char conn trans handle) k = (k, ((refl, refl), tt))
shared-Quiet mem uuid g pr (write_char p) k = write-Quiet mem g pr p k
shared-Quiet mem uuid g pr (exec_write conn trans execute) k = exec-Quiet g pr conn trans execute k
shared-Quiet mem uuid g pr (create service) k = (refl, (tt, (tt, tt)))
shared-Quiet mem uuid g pr (add_char handle) k = (k, (tt, tt))
shared-Quiet mem uuid g pr (add_char_descr handle) k = (k, tt)
shared-Quiet mem uuid g pr (connect conn) k = (k, tt)
shared-Quiet mem uuid g pr disconnect k = (k, tt)
shared-Quiet mem uuid g pr other k = (k, tt)
