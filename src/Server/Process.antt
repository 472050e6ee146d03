-- ===== src/Server/Process.antt =====
-- The server's process: server/src/main.c, and the start, the loop and the connections' resources in
-- server/src/net/ssl_server.c.
use esp_mo_net.Base.{
  true, false, [], ◌∷◌, ◌++◌, none, some, ℕ, Bool, List, Option, ◌-◌, if◌then◌else◌, not, false,
  ◌==◌, length, true, ◌>>=◌,
}
use mathlib.Core.Option
use esp_mo_net.Server.{ssl_read}
use esp_mo_net.Server.Client.{
  req_buf_size, Outcome, client_thread, silent, answered_400, answered_404, data_answered,
  image_answered, passed_on,
}

-- What the code calls, as far as it has an effect outside.
pub data SystemCall : Type 0 where
  ssl_ctx_new use_certificate use_private_key socket set_reuse listen on_sigint : SystemCall
  bind : (port : ℕ) → SystemCall
  accept detach ssl_new ssl_accept ssl_read_head dispatch ssl_shutdown ssl_free : SystemCall
  create_thread set_fd close : (fd : ℕ) → SystemCall

-- `server_config_t`, as far as the program reads it
pub record ServerConfig : Type 0 where
  pub port : ℕ
  pub max_clients : ℕ

-- The configuration of `main`
abbrev pub main_config : ServerConfig
main_config = record { port = 8443; max_clients = 32 }

-- What the calls of the start answer; `socket_fd` is `none` where `socket` fails.
pub record Started : Type 0 where
  pub ctx_made : Bool
  pub certificate_read : Bool
  pub key_read : Bool
  pub socket_fd : Option ℕ
  pub bound : Bool
  pub listening : Bool

-- `create_listen_socket`
abbrev pub on_socket : Started → ℕ → Option ℕ → Option ℕ × List SystemCall
on_socket a port none = (none, socket ∷ [])
on_socket a port (some fd) =
    if not a.bound
    then (none, socket ∷ set_reuse ∷ bind port ∷ [])
    else (if a.listening then some fd else none, socket ∷ set_reuse ∷ bind port ∷ listen ∷ [])

unfoldable pub create_listen_socket : Started → ℕ → Option ℕ × List SystemCall
create_listen_socket a port = on_socket a port a.socket_fd

-- What a client does: whether the handshake succeeds, whether there is memory for its body, and the records that
-- its connection delivers.
pub record Conversation : Type 0 where
  pub handshake : Bool
  pub room : Bool
  pub incoming : List (List ℕ)

-- Whether the call of a handler returns: image_handler does not where it copies beyond its buffer. The handlers
-- of the status, of updates and of checksums do.
abbrev pub returns : Outcome → Bool
returns silent = true
returns answered_400 = true
returns answered_404 = true
returns (data_answered answer) = true
returns (image_answered none) = false
returns (image_answered (some answer)) = true
returns (passed_on handler) = true

-- The calls behind the handshake, with whether it succeeded, whether nothing was read, and whether the router
-- returns; `none` is the fault of a handler.
abbrev pub conversation_calls : Bool → Bool → Bool → ℕ → Option (List SystemCall)
conversation_calls false quiet back fd = some (ssl_free ∷ close fd ∷ [])
conversation_calls true true back fd =
    some (ssl_read_head ∷ ssl_shutdown ∷ ssl_free ∷ close fd ∷ [])
conversation_calls true false false fd = none
conversation_calls true false true fd =
    some (ssl_read_head ∷ dispatch ∷ ssl_shutdown ∷ ssl_free ∷ close fd ∷ [])

-- `client_thread`: the calls around the request, on every way out.
unfoldable pub client_calls : ℕ → Conversation → Option (List SystemCall)
client_calls fd c =
    let (raw, later) = ssl_read (req_buf_size - 1) c.incoming in
    let back = returns (client_thread c.handshake c.room c.incoming) in
    Option.map (λ calls. ssl_new ∷ set_fd fd ∷ ssl_accept ∷ calls)
      (conversation_calls c.handshake (length raw == 0) back fd)

-- What `accept` answers: an error, or a client, whose thread cannot be made where there is no conversation.
pub data Accepted : Type 0 where
  accept_failed : Accepted
  client : (fd : ℕ) → Option Conversation → Accepted

-- A turn of the loop of `ssl_server_start`
abbrev pub accept_turn : Accepted → List SystemCall
accept_turn accept_failed = accept ∷ []
accept_turn (client fd none) = accept ∷ create_thread fd ∷ close fd ∷ []
accept_turn (client fd (some c)) = accept ∷ create_thread fd ∷ detach ∷ []

unfoldable pub accept_loop : List Accepted → List SystemCall
accept_loop [] = []
accept_loop (a ∷ arrivals) = accept_turn a ++ accept_loop arrivals

-- The threads of the connections, each with its calls; `none` is a fault of one of them.
unfoldable pub threads : List Accepted → Option (List (List SystemCall))
threads [] = some []
threads (accept_failed ∷ arrivals) = threads arrivals
threads (client fd none ∷ arrivals) = threads arrivals
threads (client fd (some c) ∷ arrivals) =
    client_calls fd c >>= λ calls. threads arrivals >>= λ others. some (calls ∷ others)

-- `ssl_server_start`, up to a part of its endless loop: `false` is the answer -1.
unfoldable pub ssl_server_start : ServerConfig → Started → List Accepted → Bool × List SystemCall
unfolding create_listen_socket accept_loop
ssl_server_start cfg a arrivals =
    if not a.ctx_made
    then (false, ssl_ctx_new ∷ [])
    else if not a.certificate_read
    then (false, ssl_ctx_new ∷ use_certificate ∷ [])
    else if not a.key_read
    then (false, ssl_ctx_new ∷ use_certificate ∷ use_private_key ∷ [])
    else (let (fd, calls) = create_listen_socket a cfg.port in
        let before = ssl_ctx_new ∷ use_certificate ∷ use_private_key ∷ calls in
        listening_on fd before)
  where
    listening_on : Option ℕ → List SystemCall → Bool × List SystemCall
    listening_on none before = (false, before)
    listening_on (some fd) before = (true, before ++ on_sigint ∷ accept_loop arrivals)
