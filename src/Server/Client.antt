-- ===== src/Server/Client.antt =====
-- The thread of a connection, client_thread of server/src/net/ssl_server.c, with the handlers of its request.
use esp_mo_net.Base.{List, ℕ, Option, Bool, ◌-◌, if◌then◌else◌, not, length, ◌==◌}
use esp_mo_net.Server.{Request, data_handler, image_handler, DataAnswer, ImageAnswer, ssl_read}
use esp_mo_net.Server.Router.{
  to_status, to_data, to_ota, to_sha256, to_image, bad_line, not_found, Handler, Dispatch,
  parse_content_length, handled_by, router_dispatch,
}

abbrev pub req_buf_size : ℕ
req_buf_size = 4096

-- What a connection comes to: nothing was said, the two errors of the router, the handlers with a body, or one
-- of the handlers that only answer.
pub data Outcome : Type 0 where
  silent answered_400 answered_404 : Outcome
  data_answered : DataAnswer → Outcome
  image_answered : Option ImageAnswer → Outcome
  passed_on : Handler → Outcome

-- `http_request_t` as the handlers with a body read it.
abbrev request_of : List ℕ → Option (List ℕ) → Request
request_of raw payload = record { content_len = parse_content_length raw; payload = payload }

-- `room` says whether the handler's `malloc` of the body has memory.
abbrev call_handler : Bool → Handler → Request → List (List ℕ) → Outcome
call_handler room to_data req incoming = data_answered (data_handler room req incoming)
call_handler room to_image req incoming = image_answered (image_handler room req incoming)
call_handler room to_status req incoming = passed_on to_status
call_handler room to_ota req incoming = passed_on to_ota
call_handler room to_sha256 req incoming = passed_on to_sha256

abbrev pub serve : Bool → List ℕ → Dispatch → List (List ℕ) → Outcome
serve room raw bad_line incoming = answered_400
serve room raw not_found incoming = answered_404
serve room raw (handled_by handler payload) incoming =
    call_handler room handler (request_of raw payload) incoming

-- `client_thread`: whether the handshake succeeded, whether a handler's `malloc` has memory, and the records that the connection delivers. A read of
-- nothing ends it.
unfoldable pub client_thread : Bool → Bool → List (List ℕ) → Outcome
client_thread handshake room incoming =
    let (raw, rest) = ssl_read (req_buf_size - 1) incoming in
    if not handshake
    then silent
    else if length raw == 0
    then silent
    else serve room raw (router_dispatch raw) rest
