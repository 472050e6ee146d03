-- ===== src/Https/Lost.antt =====
-- The uploader over the HTTPS client: what becomes of a text that the server refuses.
use esp_mo_net.Base.{
  [], ◌∷◌, refl, some, true, false, List, ℕ, ◌≡◌, ◌≢◌, c_string, ◌==◌, arith, ◌∙◌,
}
use esp_mo_net.Uploader.{http_sink_handler, leave}
use esp_mo_net.Uploader.Flush.{Shrinks, OldestEnds, flush_cache-Shrinks}
use esp_mo_net.Cache.Invariant.{IsConfig, IsValid}
use esp_mo_net.Cache.Refine.{contents}
use esp_mo_net.Cache.{Config, Cache}
use esp_mo_net.Https.{Link, Answers, https_net, http_post_send}
use esp_mo_net.Message.{Msg, sensor_jpeg}

send_ok :
    (a : Answers) (json : List ℕ)
    → a.made ≡ true
    → a.performed ≡ true
    → (http_post_send a json).0 ≡ true
unfolding http_post_send
send_ok a json made done = rw (made, done)

-- A text whose post was performed is not pushed, and the sink goes on to the flushes.
pub performed_text_leaves :
    (cfg : Config) (c : Cache) (w : Link) (a : Answers) (later : List Answers) (m : Msg)
    (json : List ℕ)
    → w.up ≡ true
    → w.answers ≡ a ∷ later
    → a.made ≡ true
    → a.performed ≡ true
    → m.topic ≢ sensor_jpeg
    → c_string m.payload ≡ some json
    → json ≢ []
    → http_sink_handler cfg https_net c w m
      ≡ leave cfg https_net true true c
          (record w { answers = later; log = (http_post_send a json).1 ∷ w.log })
unfolding http_sink_handler
performed_text_leaves cfg c w a later m [] up script made done other text nonempty =
    absurd (nonempty refl)
performed_text_leaves cfg c w a later m (b ∷ json) up script made done other text nonempty =
    let topic : (m.topic == sensor_jpeg) ≡ false = ground arith in
    let sent : (http_post_send a (b ∷ json)).0 ≡ true = send_ok a (b ∷ json) made done in
    simp (topic, text, up, script, sent) refl

-- With Wi-Fi and a request that was performed, the uploader's sink ends without a fault and
-- answers a text with true, whatever status the server answered with, and the text is not put into
-- the cache's queue: the queue is what it was, less at most two of its oldest payloads, and the
-- cache is valid. The cache is valid before, its oldest payload has an end as a string, the topic
-- is not that of frames and the text is not empty.
pub refused_text_lost :
    (cfg : Config) (c : Cache) (w : Link) (a : Answers) (later : List Answers) (m : Msg)
    (json : List ℕ)
    → IsConfig cfg
    → IsValid cfg c
    → OldestEnds (contents cfg c)
    → w.up ≡ true
    → w.answers ≡ a ∷ later
    → a.made ≡ true
    → a.performed ≡ true
    → m.topic ≢ sensor_jpeg
    → c_string m.payload ≡ some json
    → json ≢ []
    → (c' : Cache) × (w' : Link) × (http_sink_handler cfg https_net c w m ≡ some (true, c', w'))
      × IsValid cfg c'
      × Shrinks 2 (contents cfg c) (contents cfg c')
refused_text_lost cfg c w a later m json k v ends up script made done other text nonempty =
    let w₁ : Link = record w { answers = later; log = (http_post_send a json).1 ∷ w.log } in
    let (c', w', flushed, v', shrinks) = flush_cache-Shrinks https_net c w₁ k v ends in
    (
      c',
      w',
      performed_text_leaves cfg c w a later m json up script made done other text nonempty
          ∙ rw flushed refl,
      v',
      shrinks,
    )
