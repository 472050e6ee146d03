-- ===== src/Https/Tests.antt =====
-- Runs of the posts, and their theorems at concrete answers.
use esp_mo_net.Base.{
  [], ◌∷◌, refl, none, some, true, false, List, ℕ, c_string, ◌≡◌, replicate, arith,
}
use esp_mo_net.Cache.{init, Config}
use esp_mo_net.Uploader.{http_sink_handler}
use esp_mo_net.Uploader.Flush.{Shrinks, OldestEnds}
use esp_mo_net.Cache.Invariant.{IsConfig, IsValid, push_blob-IsValid, push-IsValid, init-IsValid}
use esp_mo_net.Cache.Refine.{contents}
use esp_mo_net.Cache.{push, push_blob, Cache}
use esp_mo_net.Https.{
  client_init, client_close, client_cleanup, Answers, http_post_send, http_post_image, Link,
  https_net, set_header, client_open, client_write,
}
use esp_mo_net.Https.Calls.{GivesBack, http_post_image-GivesBack}
use esp_mo_net.Message.{Msg, sensor_light}
use esp_mo_net.Https.Lost.{refused_text_lost}

-- The server answers 500; a write falls short.
abbrev refusal : Answers
refusal = record { made = true; performed = true; opened = true; written = 1; status = 500 }

abbrev accepted : Answers
accepted = record { made = true; performed = true; opened = true; written = 2; status = 204 }

abbrev bytes : List ℕ
bytes = 0xFF ∷ 0xD8 ∷ []

posts_run :
    ((http_post_send refusal bytes).0 ≡ true)
    × (http_post_image refusal (some bytes) ≡ (
      false,
      client_init
          ∷ set_header "Content-Type" "image/jpeg"
          ∷ client_open 2
          ∷ client_write bytes
          ∷ client_close
          ∷ client_cleanup
          ∷ [],
    ))
    × ((http_post_image accepted (some bytes)).0 ≡ true)
unfolding http_post_send http_post_image
posts_run = (refl, refl, refl)

http_post_image-GivesBack_example : GivesBack true (http_post_image refusal (some bytes)).1
http_post_image-GivesBack_example = http_post_image-GivesBack refusal 0xFF (0xD8 ∷ [])

abbrev small : Config
small = record { max_items = 2; item_size = 16 }

small-IsConfig : IsConfig small
small-IsConfig = ground arith

abbrev link : Link
link = record { up = true; answers = refusal ∷ []; log = []; frame = [] }

abbrev text_msg : Msg
text_msg = record {
  topic = sensor_light;
  ts_ms = 7;
  payload = b'{' ∷ b'}' ∷ replicate 126 0;
  release = none;
}

text_msg_holds : c_string text_msg.payload ≡ some (b'{' ∷ b'}' ∷ [])
unfolding c_string
text_msg_holds = refl

-- A text and a frame wait in the cache.
abbrev waiting : Cache
waiting = (push_blob small (push small (init small) (b'a' ∷ b'b' ∷ [])).1 bytes).1

waiting-IsValid : IsValid small waiting
waiting-IsValid =
    push_blob-IsValid (push small (init small) (b'a' ∷ b'b' ∷ [])).1 small-IsConfig
      (push-IsValid (init small) small-IsConfig (init-IsValid small small-IsConfig)
        (b'a' ∷ b'b' ∷ []))
      bytes

waiting_ends : OldestEnds (contents small waiting)
unfolding push push_blob init c_string
waiting_ends = λ e. cc

refused_text_lost_example :
    (c' : Cache) × (w' : Link) × (http_sink_handler small https_net waiting link text_msg
      ≡ some (true, c', w'))
    × IsValid small c'
    × Shrinks 2 (contents small waiting) (contents small c')
refused_text_lost_example =
    refused_text_lost small waiting link refusal [] text_msg (b'{' ∷ b'}' ∷ []) small-IsConfig
      waiting-IsValid waiting_ends refl refl refl refl (omega arith) text_msg_holds (λ e. cc)
