-- ===== src/Uploader/Tests.antt =====
-- Concrete runs of the sink of components/service/src/http_uploader_service.c.
use esp_mo_net.Cache.Queue
use esp_mo_net.Cache.{init, push, Config, Cache}
use esp_mo_net.Cache.Invariant.{init-IsValid, IsValid, IsConfig, push-IsValid}
use esp_mo_net.Base.{
  [], ◌∷◌, ◌++◌, refl, none, some, Bool, List, c_string, arith, ℕ, ◌≡◌, false, true, replicate,
  if◌then◌else◌, ◌≢◌, ltb,
}
use esp_mo_net.Message.{
  Msg, word_bytes, sensor_light, sensor_jpeg, word_at_start, word_payload, jpeg_fb,
}
use esp_mo_net.Uploader.Sink.{Keeps, offline_text, flush_alternates, offline_image}
use esp_mo_net.Cache.Refine.{contents}
use esp_mo_net.Uploader.{Net, flush_cache, http_sink_handler}

-- A network that takes every post and notes it, and a driver with one frame.
abbrev net : Bool → Net (List (List ℕ))
net up = record {
  is_connected = λ w. up;
  post_send = λ json w. (true, json ∷ w);
  post_image = λ bytes w. (true, bytes ∷ w);
  frame_at = λ w p. some (0xFF ∷ 0xD8 ∷ 0 ∷ []);
}

abbrev small : Config
small = record { max_items = 2; item_size = 16 }

small-IsConfig : IsConfig small
small-IsConfig = omega arith

abbrev empty : Cache
empty = init small

empty-IsValid : IsValid small empty
empty-IsValid = init-IsValid small small-IsConfig

abbrev text : List ℕ
text = b'{' ∷ b'}' ∷ []

-- A message with a text, and one with a frame.
abbrev text_msg : Msg
text_msg = record {
  topic = sensor_light;
  ts_ms = 7;
  payload = text ++ replicate 126 0;
  release = none;
}

abbrev frame_msg : Msg
frame_msg = record { topic = sensor_jpeg; ts_ms = 7; payload = word_payload 9; release = none }

text_msg_holds : c_string text_msg.payload ≡ some text
unfolding c_string
text_msg_holds = refl

frame_msg_holds : jpeg_fb frame_msg ≢ 0
unfolding word_bytes word_at_start
frame_msg_holds = omega arith

offline_text_example :
    Keeps
      (net false)
      empty
      small-IsConfig
      empty-IsValid
      []
      (Queue.enqueue 2 (contents small empty) (Queue.text_payload small text)).1
      (http_sink_handler small (net false) empty [] text_msg)
offline_text_example =
    offline_text (net false) empty small-IsConfig empty-IsValid [] text_msg text refl (omega arith)
      text_msg_holds (λ e. cc)

offline_image_example :
    Keeps
      (net false)
      empty
      small-IsConfig
      empty-IsValid
      []
      (if ltb 16 3
        then contents small empty
        else (Queue.enqueue 2 (contents small empty) (0xFF ∷ 0xD8 ∷ 0 ∷ [])).1)
      (http_sink_handler small (net false) empty [] frame_msg)
offline_image_example =
    offline_image (net false) empty small-IsConfig empty-IsValid [] frame_msg (0xFF ∷ 0xD8 ∷ 0 ∷ [])
      refl refl frame_msg_holds refl (λ e. cc)

-- Two texts are waiting.
abbrev queued : Cache
queued = (push small (push small empty text).1 text).1

queued-IsValid : IsValid small queued
queued-IsValid =
    push-IsValid (push small empty text).1 small-IsConfig
      (push-IsValid empty small-IsConfig empty-IsValid text) text

contents-queued : contents small queued ≡ (text ++ 0 ∷ []) ∷ (text ++ 0 ∷ []) ∷ []
unfolding init push
contents-queued = refl

flush_alternates_example :
    (c' : Cache) × (flush_cache small (net true) queued []
      ≡ some (c', (text ++ 0 ∷ []) ∷ text ∷ []))
    × (contents small c' ≡ [])
flush_alternates_example =
    flush_alternates (net true) queued small-IsConfig queued-IsValid [] text [] (text ++ 0 ∷ []) []
      contents-queued (omega arith) refl
