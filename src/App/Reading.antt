-- ===== src/App/Reading.antt =====
-- A light sample from the device's uploader (components/service/src/http_uploader_service.c) over its HTTPS client
-- (components/net/src/https_post_hal.c) to the companion server (server/src/net/ssl_server.c).
use mathlib.Core.List.{append-nil}
use esp_mo_net.Base.{
  refl, [], ◌∷◌, List, ℕ, ◌≡◌, true, length, ◌<◌, ◌^◌, some, ◌≢◌, ap, ◌∙◌, arith, sym, Option, none,
}
use esp_mo_net.Https.{
  client_perform, client_cleanup, set_post_field, ClientCall, Answers, Link, https_net,
  http_post_send, set_post_field,
}
use esp_mo_net.Https.Lost.{performed_text_leaves}
use esp_mo_net.Uploader.{http_sink_handler, leave}
use esp_mo_net.Cache.{Config, Cache}
use esp_mo_net.Sensors.{light_msg}
use esp_mo_net.Sensors.Posted.{light_payload, light_topic}
use esp_mo_net.Codec.{light_text}
use esp_mo_net.Codec.Decode.{decode_light, decode_light-light_text}
use esp_mo_net.Codec.Fit.{length-light_text}
use esp_mo_net.Server.{data_ok}
use esp_mo_net.Server.Body.{AllFull, stream}
use esp_mo_net.Server.Client.{client_thread, data_answered}
use esp_mo_net.Server.Arrives.{posted_arrives}
use esp_mo_net.Server.Posts.{Headers, FitsRead, data_line, post_head}
use esp_mo_net.Message.{sensor_jpeg}

-- The field that a performed request posts: the last one that was set before `esp_http_client_perform`, on a client
-- that was not given back before.
abbrev pub posted_field : Option (List ℕ) → List ClientCall → Option (List ℕ)
posted_field field [] = none
posted_field field (set_post_field json ∷ calls) = posted_field (some json) calls
posted_field field (client_perform ∷ calls) = field
posted_field field (client_cleanup ∷ calls) = none
posted_field field (call ∷ calls) = posted_field field calls

-- esp_http_client and the connection, for a URL with the path /data and the method POST: the header lines that the
-- client sends besides the length, and the records that the server reads for a client's calls. What a performed
-- request with a field puts on the wire is a head with the length of the field, and the bytes of the field.
pub record Transport : Type 0 where
  pub headers : Headers
  pub short : (n : ℕ) → n < 2 ^ 32 → FitsRead data_line headers n
  pub on_wire : Answers → List ClientCall → List (List ℕ)
  pub delivers :
      (a : Answers) (calls : List ClientCall) (field : List ℕ)
      → a.made ≡ true
      → a.performed ≡ true
      → posted_field none calls ≡ some field
      → (records : List (List ℕ)) × (on_wire a calls
          ≡ post_head data_line headers (length field) ∷ records)
        × AllFull records
        × (stream records ≡ field)

-- The post of a text sets the text and is performed.
http_post_send-posted_field :
    (a : Answers) (json : List ℕ)
    → a.made ≡ true
    → posted_field none (http_post_send a json).1 ≡ some json
unfolding http_post_send
http_post_send-posted_field a json made = rw made refl

light_text_said : (value now : ℕ) → light_text value now ≢ []
unfolding light_text
light_text_said value now e = absurd (cc)

no_frame : (value now : ℕ) → (light_msg value now).topic ≢ sensor_jpeg
no_frame value now e = absurd (omega (arith, light_topic value now, e))

-- A light sample reaches the server: with Wi-Fi and a request that was performed, the calls that
-- the uploader's sink makes for the sample's message are on the wire a connection that the server,
-- where memory suffices, routes to data_handler, which gets a text that decodes to the sample and
-- its time; the sink then goes on to the cache's flush. Sample and time have 32 bits. Of the
-- client and the connection it is assumed that a performed request with a field is a head with the
-- length of the field, any other header lines and the request line of the URL, followed by the
-- field's bytes, and that the head fits in the server's first read.
pub reading_reaches_server :
    (t : Transport) (cfg : Config) (c : Cache) (w : Link) (a : Answers) (later : List Answers)
    (value now : ℕ)
    → w.up ≡ true
    → w.answers ≡ a ∷ later
    → a.made ≡ true
    → a.performed ≡ true
    → value < 2 ^ 32
    → now < 2 ^ 32
    → (calls : List ClientCall) × (text : List ℕ) × (http_sink_handler cfg https_net c w
          (light_msg value now)
        ≡ leave cfg https_net true true c (record w { answers = later; log = calls ∷ w.log }))
      × (client_thread true true (t.on_wire a calls) ≡ data_answered (data_ok text))
      × (decode_light text ≡ some (value, now))
reading_reaches_server t cfg c w a later value now up script made done hv ht =
    let text = light_text value now in
    let (records, on_wire, full, whole) =
      t.delivers a (http_post_send a text).1 text made done
        (http_post_send-posted_field a text made) in
    let small : length text < 2 ^ 32 = omega (arith, length-light_text value now hv ht) in
    let said : text ≢ [] = light_text_said value now in
    (
      (http_post_send a text).1,
      text,
      performed_text_leaves cfg c w a later (light_msg value now) text up script made done
          (no_frame value now) (light_payload value now hv ht) said,
      ap (client_thread true true) on_wire
          ∙ posted_arrives t.headers text [] records (t.short (length text) small) said
              (omega (arith, length-light_text value now hv ht)) full
              (whole ∙ sym (append-nil text)),
      decode_light-light_text value now hv ht,
    )
