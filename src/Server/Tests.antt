-- ===== src/Server/Tests.antt =====
-- Requests to the handlers of server/src/handlers, in the records that a connection may use.
use mathlib.Core.Path.{refl}
use esp_mo_net.Server.Router.{
  not_found, to_status, request_line, router_dispatch, parse_content_length, handled_by,
  strip_nocase, after_blank, skip_spaces,
}
use esp_mo_net.Base.{[], ◌∷◌, some, List, ℕ, arith, true, ◌≡◌, none, ◌≤◌, All}
use esp_mo_net.Server.{Request, image_handler, image_result, read_loop}
use esp_mo_net.Server.Body.{AllFull, first_bytes, image_handler_lem}
use esp_mo_net.Format.{codes}
use esp_mo_net.Server.Client.{client_thread}
use esp_mo_net.Format.Digits.{scan}
use esp_mo_net.Format.Read.{strip}
use esp_mo_net.Server.Posts.{Headers, FitsRead, image_line, post_head}
use esp_mo_net.Server.Lines.{IsOther, IsLine, lines_before}
use esp_mo_net.Server.Router.{after_nocase}
use esp_mo_net.Format.{digits}
use esp_mo_net.Server.Kept.{Images, willing, finish, created, frame_kept}
use esp_mo_net.Store.Tests.{full_store, full_store-IsValid, image}
use esp_mo_net.Store.{Store}
use esp_mo_net.Store.Files.{Has}
use esp_mo_net.Store.Quota.{IsValid}
use esp_mo_net.Server.Process.{
  SystemCall, Accepted, client, accept_failed, accept, create_thread, close, ssl_new, set_fd,
  detach, ssl_accept, ssl_free, accept_loop, threads, client_calls, ssl_read_head, Conversation,
  dispatch, ssl_shutdown,
}
use esp_mo_net.Server.Closing.{
  Interleaved, beside, alone, left, right, done, tally, closing, making, freeing, accepts,
  connections_closed,
}
use esp_mo_net.Server.Ends.{read_loop_ends}

-- Five bytes are announced, the headers came alone, and the body follows in two records.
abbrev request : Request
request = record { content_len = 5; payload = some [] }

abbrev records : List (List ℕ)
records = (1 ∷ 2 ∷ []) ∷ (3 ∷ 4 ∷ 5 ∷ 6 ∷ []) ∷ []

records-AllFull : AllFull records
records-AllFull = omega arith

image_handler_lem_example :
    image_handler true request records
    ≡ some (image_result (first_bytes 5 (1 ∷ 2 ∷ 3 ∷ 4 ∷ 5 ∷ 6 ∷ [])))
image_handler_lem_example = image_handler_lem request records records-AllFull

-- Words of the request line, and requests that no route takes.
lines_run :
    (request_line (codes "GET /status HTTP/1.1") ≡ some (codes "GET", codes "/status"))
    × (request_line (codes "GET") ≡ none)
    × (router_dispatch (codes "GET /data HTTP/1.1") ≡ not_found)
    × (router_dispatch (codes "GET /status HTTP/1.1") ≡ handled_by to_status none)
    × (parse_content_length (codes "CONTENT-length:  -5") ≡ 0)
unfolding request_line router_dispatch parse_content_length scan strip
lines_run = (refl, refl, refl, refl, refl)

abbrev json : List ℕ
json = codes "{\"a\": 1}"

-- An empty record ends the reading.
read_loop_ends_example :
    read_loop 5 5 [] ((1 ∷ 2 ∷ []) ∷ [] ∷ (3 ∷ []) ∷ [])
    ≡ read_loop 9 5 [] ((1 ∷ 2 ∷ []) ∷ [] ∷ (3 ∷ []) ∷ [])
read_loop_ends_example =
    read_loop_ends 5 9 5 [] ((1 ∷ 2 ∷ []) ∷ [] ∷ (3 ∷ []) ∷ []) (omega arith) (omega arith)

-- The oldest file of a full store makes room.
abbrev images : Images
images = record { inited = true; store = full_store }

host_line : All IsOther (codes "Host: 192.168.1.7:8443" ∷ [])
unfolding after_nocase
host_line = (((λ e. cc, ground arith), refl), tt)

type-IsLine : All IsLine (codes "Content-Type: image/jpeg" ∷ [])
type-IsLine = ((λ e. cc, ground arith), tt)

abbrev headers : Headers
headers = record {
  before = codes "Host: 192.168.1.7:8443" ∷ [];
  after = codes "Content-Type: image/jpeg" ∷ [];
  before_other = host_line;
  after_lines = type-IsLine;
}

headers_short : FitsRead image_line headers 3
unfolding lines_before digits
headers_short = omega arith

frame_kept_example :
    (st' : Store) × (finish
        (willing 10 image)
        (client_thread true true
          (post_head image_line headers 3 ∷ (255 ∷ 216 ∷ []) ∷ (7 ∷ []) ∷ []))
        images
      ≡ some (created 3, record { inited = true; store = st' }))
    × IsValid st'
    × Has st'.files image
    × (st'.total ≤ 10)
frame_kept_example =
    frame_kept 10 image headers (255 ∷ 216 ∷ 7 ∷ []) [] ((255 ∷ 216 ∷ []) ∷ (7 ∷ []) ∷ []) images
      headers_short (λ e. cc) (omega arith) (omega arith) (omega arith) refl refl full_store-IsValid
      (ground arith)

-- A client whose thread cannot be made, and one whose request is not understood, beside the loop.
abbrev arrivals : List Accepted
arrivals =
    client 7 none
    ∷ accept_failed
    ∷ client 7 (some (record { handshake = true; room = true; incoming = (71 ∷ []) ∷ [] }))
    ∷ []

abbrev seven : List SystemCall
seven =
    ssl_new
    ∷ set_fd 7
    ∷ ssl_accept
    ∷ ssl_read_head
    ∷ dispatch
    ∷ ssl_shutdown
    ∷ ssl_free
    ∷ close 7
    ∷ []

abbrev trace : List SystemCall
trace =
    accept
    ∷ create_thread 7
    ∷ close 7
    ∷ accept
    ∷ accept
    ∷ create_thread 7
    ∷ ssl_new
    ∷ set_fd 7
    ∷ detach
    ∷ ssl_accept
    ∷ ssl_read_head
    ∷ dispatch
    ∷ ssl_shutdown
    ∷ ssl_free
    ∷ close 7
    ∷ []

threads_return : threads arrivals ≡ some (seven ∷ [])
unfolding threads client_calls client_thread router_dispatch request_line
threads_return = refl

mixed : Interleaved (accept_loop arrivals ∷ seven ∷ []) trace
unfolding accept_loop
mixed = beside (beside alone (left (left (left (left (left (left (left (left done))))))))) (
    left (
      left (
        left (
          left (
            left (
              left (right (right (left (right (right (right (right (right (right done)))))))))))))))

connections_closed_example :
    (tally (closing 7) trace ≡ accepts 7 arrivals) × (tally making trace ≡ tally freeing trace)
connections_closed_example = connections_closed arrivals (seven ∷ []) trace 7 threads_return mixed

-- A post whose body comes with its head and is longer than it says.
abbrev too_long : Conversation
too_long = record {
  handshake = true;
  room = true;
  incoming = codes "POST /image HTTP/1.1\r\nContent-Length: 1\r\n\r\nab" ∷ [];
}

long_post_overflows : client_calls 7 too_long ≡ none
unfolding client_calls client_thread router_dispatch request_line image_handler parse_content_length
    after_nocase strip_nocase after_blank skip_spaces scan strip
long_post_overflows = refl
