-- ===== src/Ble/Links.antt =====
-- The handlers of components/service/src/ble_service.c do not look at the connection that was noted:
-- with and without it they do the same.
use esp_mo_net.Base.{
  [], ◌++◌, refl, none, some, ℕ, List, Option, Bool, if◌then◌else◌, ◌≡◌, true, false, ◌>>=◌, map,
  Option-cases, inl, ◌∙◌, inr,
}
use esp_mo_net.Ble.Prepare.{
  Memory, WriteParam, PrepareEnv, Response, write_event_env, exec_write_event_env,
}
use esp_mo_net.Ble.Profile.{
  disconnect, other, Event, Profile, Server, write_event, exec_event, connect, plain_write, Call,
  reg, read_char, write_char, send_response, exec_write, create, add_char, add_char_descr,
  char_uuid_b, char_uuid_a, RawMacros,
}
use esp_mo_net.Ble.Handlers.{
  shared_events, handler_a, handler_b, call_handlers, adv_config_after, own_calls_b, concerns,
  own_calls_a,
}

-- A client comes or leaves.
abbrev pub is_link : Event → Bool
is_link (connect conn) = true
is_link disconnect = true
is_link event = false

abbrev forget_profile : Profile → Profile
forget_profile pr = record pr { conn_id = 0 }

-- The server with no connection noted.
abbrev pub forget : Server → Server
forget s = record s {
  profile_a = forget_profile s.profile_a;
  profile_b = forget_profile s.profile_b;
}

-- The second result is the first one without the connection, which stays as it was.
abbrev Follows : Profile → Option (Profile × List Call) → Option (Profile × List Call) → Type 0
Follows pr none o = o ≡ none
Follows pr (some (p, calls)) o = (o ≡ some (forget_profile p, calls)) × (p.conn_id ≡ pr.conn_id)

abbrev pub ServerFollows : ℕ → Option (Server × List Call) → Option (Server × List Call) → Type 0
ServerFollows conn none o = o ≡ none
ServerFollows conn (some (s', calls)) o =
    (o ≡ some (forget s', calls)) × (s'.profile_a.conn_id ≡ conn)

write-Follows :
    (mem : Memory) (g : ℕ) (pr : Profile) (p : WriteParam)
    → Follows pr (write_event mem g pr p) (write_event mem g (forget_profile pr) p)
unfolding write_event plain_write
write-Follows mem g pr p = by_env (plain_write pr g p) (write_event_env mem g pr.prepare_env p)
  where
    by_env :
        (calls : Option (List Call)) (o : Option (PrepareEnv × List Response))
        → Follows pr
            (calls >>= λ cs.
              o >>= λ (env, rs). some (record pr { prepare_env = env }, cs ++ map send_response rs))
            (calls >>= λ cs. o >>= λ (env, rs).
              some (record (forget_profile pr) { prepare_env = env }, cs ++ map send_response rs))
    by_env none o = refl
    by_env (some cs) none = refl
    by_env (some cs) (some (env, rs)) = (refl, refl)

exec-Follows :
    (g : ℕ) (pr : Profile) (conn trans : ℕ) (execute : Bool)
    → Follows pr
        (exec_event g pr conn trans execute)
        (exec_event g (forget_profile pr) conn trans execute)
unfolding exec_event
exec-Follows g pr conn trans execute =
    elim (Option-cases (exec_write_event_env pr.prepare_env execute)) [
      | inl fault ↦ rw fault refl
      | inr (r, e) ↦ rw e (refl, refl)
    ]

shared-Follows :
    (mem : Memory) (uuid g : ℕ) (pr : Profile) (event : Event)
    → is_link event ≡ false
    → Follows pr
        (shared_events mem uuid g pr event)
        (shared_events mem uuid g (forget_profile pr) event)
unfolding shared_events
shared-Follows mem uuid g pr (reg ok app) k = (refl, refl)
shared-Follows mem uuid g pr (read_char conn trans handle) k = (refl, refl)
shared-Follows mem uuid g pr (write_char p) k = write-Follows mem g pr p
shared-Follows mem uuid g pr (exec_write conn trans execute) k =
    exec-Follows g pr conn trans execute
shared-Follows mem uuid g pr (create service) k = (refl, refl)
shared-Follows mem uuid g pr (add_char handle) k = (refl, refl)
shared-Follows mem uuid g pr (add_char_descr handle) k = (refl, refl)
shared-Follows mem uuid g pr (connect conn) k = absurd (cc)
shared-Follows mem uuid g pr disconnect k = absurd (cc)
shared-Follows mem uuid g pr other k = (refl, refl)

handler_a-Follows :
    (raw : RawMacros) (mem : Memory) (g : ℕ) (s : Server) (event : Event)
    → is_link event ≡ false
    → ServerFollows s.profile_a.conn_id
        (handler_a raw mem g s event)
        (handler_a raw mem g (forget s) event)
unfolding handler_a
handler_a-Follows raw mem g s event k =
    lift (shared_events mem char_uuid_a g s.profile_a event)
      (shared_events mem char_uuid_a g (forget_profile s.profile_a) event)
      (shared-Follows mem char_uuid_a g s.profile_a event k)
  where
    put : Server → Profile × List Call → Option (Server × List Call)
    put s₀ (pr, calls) = some (
      record s₀ { profile_a = pr; adv_config_done = adv_config_after s₀.adv_config_done event },
      own_calls_a raw g event ++ calls,
    )

    lift :
        (o o' : Option (Profile × List Call))
        → Follows s.profile_a o o'
        → ServerFollows s.profile_a.conn_id (o >>= put s) (o' >>= put (forget s))
    lift none o' f = rw f refl
    lift (some (p, calls)) o' (f, kept) = rw f (refl, kept)

handler_b-Follows :
    (mem : Memory) (g : ℕ) (s : Server) (event : Event)
    → is_link event ≡ false
    → ServerFollows s.profile_a.conn_id (handler_b mem g s event) (handler_b mem g (forget s) event)
unfolding handler_b
handler_b-Follows mem g s event k =
    lift (shared_events mem char_uuid_b g s.profile_b event)
      (shared_events mem char_uuid_b g (forget_profile s.profile_b) event)
      (shared-Follows mem char_uuid_b g s.profile_b event k)
  where
    put : Server → Profile × List Call → Option (Server × List Call)
    put s₀ (pr, calls) = some (record s₀ { profile_b = pr }, own_calls_b g event ++ calls)

    lift :
        (o o' : Option (Profile × List Call))
        → Follows s.profile_b o o'
        → ServerFollows s.profile_a.conn_id (o >>= put s) (o' >>= put (forget s))
    lift none o' f = rw f refl
    lift (some (p, calls)) o' (f, kept) = rw f (refl, refl)

-- The loop's turn for one row.
abbrev turn : Bool → Server → Option (Server × List Call) → Option (Server × List Call)
turn b s o = if b then o else some (s, [])

turn-Follows :
    (b : Bool) (s : Server) (o o' : Option (Server × List Call))
    → ServerFollows s.profile_a.conn_id o o'
    → ServerFollows s.profile_a.conn_id (turn b s o) (turn b (forget s) o')
turn-Follows true s o o' f = f
turn-Follows false s o o' f = (refl, refl)

pub call_handlers-Follows :
    (raw : RawMacros) (mem : Memory) (g : ℕ) (s : Server) (event : Event)
    → is_link event ≡ false
    → ServerFollows s.profile_a.conn_id
        (call_handlers raw mem g s event)
        (call_handlers raw mem g (forget s) event)
unfolding call_handlers
call_handlers-Follows raw mem g s event k =
    first (turn (concerns g s.profile_a) s (handler_a raw mem g s event))
      (turn (concerns g s.profile_a) (forget s) (handler_a raw mem g (forget s) event))
      (turn-Follows (concerns g s.profile_a) s (handler_a raw mem g s event)
        (handler_a raw mem g (forget s) event) (handler_a-Follows raw mem g s event k))
  where
    last : List Call → Server × List Call → Option (Server × List Call)
    last calls_a (s₂, calls_b) = some (s₂, calls_a ++ calls_b)

    next : Server × List Call → Option (Server × List Call)
    next (s₁, calls_a) =
        turn (concerns g s₁.profile_b) s₁ (handler_b mem g s₁ event) >>= last calls_a

    second :
        (s₁ : Server) (calls : List Call) (o o' : Option (Server × List Call))
        → s₁.profile_a.conn_id ≡ s.profile_a.conn_id
        → ServerFollows s₁.profile_a.conn_id o o'
        → ServerFollows s.profile_a.conn_id (o >>= last calls) (o' >>= last calls)
    second s₁ calls none o' same f = rw f refl
    second s₁ calls (some (s₂, cs)) o' same (f, kept) = rw f (refl, kept ∙ same)

    first :
        (o o' : Option (Server × List Call))
        → ServerFollows s.profile_a.conn_id o o'
        → ServerFollows s.profile_a.conn_id (o >>= next) (o' >>= next)
    first none o' f = rw f refl
    first (some (s₁, calls)) o' (f, kept) = rw f (
        second s₁ calls (turn (concerns g s₁.profile_b) s₁ (handler_b mem g s₁ event))
          (turn (concerns g s₁.profile_b) (forget s₁) (handler_b mem g (forget s₁) event)) kept
          (turn-Follows (concerns g s₁.profile_b) s₁ (handler_b mem g s₁ event)
            (handler_b mem g (forget s₁) event) (handler_b-Follows mem g s₁ event k)))
