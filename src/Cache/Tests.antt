-- ===== src/Cache/Tests.antt =====
-- Runs of components/utils/src/cache.c on small rings, and the theorems at concrete inputs.
use esp_mo_net.Base.{
  [], ◌∷◌, ◌++◌, refl, List, overwrite, arith, ℕ, false, true, some, ◌≡◌, replicate, Bool, length,
}
use esp_mo_net.Cache.{
  Config, Cache, blank, Entry, push, push_blob, flush_once_with_sender_ex, text_entry,
}
use esp_mo_net.Cache.Invariant.{IsConfig, IsValid}
use esp_mo_net.Cache.Run.{run, call, run_refines}
use esp_mo_net.Cache.Refine.{contents, payload}
use esp_mo_net.Cache.Queue

abbrev small : Config
small = record { max_items = 2; item_size = 16 }

small-IsConfig : IsConfig small
small-IsConfig = omega arith

abbrev entry : List ℕ → Entry
entry s = record { bytes = overwrite s (replicate 16 0); len = length s }

-- One text waits, `{1}`, and the head has gone round.
abbrev one_text : Cache
one_text = record {
  buf = blank small ∷ record { bytes = b'{' ∷ b'1' ∷ b'}' ∷ 0 ∷ replicate 12 0; len = 4 } ∷ [];
  head = 1;
  tail = 0;
  count = 1;
}

one_text-IsValid : IsValid small one_text
one_text-IsValid = omega arith

-- A picture of sixteen bytes without a NUL waits.
abbrev one_blob : Cache
one_blob = record one_text { buf = blank small ∷ record { bytes = replicate 16 7; len = 16 } ∷ [] }

one_blob-IsValid : IsValid small one_blob
one_blob-IsValid = omega arith

abbrev script : List Queue.Op
script =
    Queue.push_text (b'a' ∷ [])
    ∷ Queue.push_text (b'b' ∷ [])
    ∷ Queue.flush false
    ∷ Queue.flush true
    ∷ Queue.push_bytes (replicate 17 1)
    ∷ Queue.flush true
    ∷ Queue.flush true
    ∷ []

abbrev replies : List Queue.Reply
replies =
    (true, [])
    ∷ (false, [])
    ∷ (false, (b'{' ∷ b'1' ∷ b'}' ∷ 0 ∷ []) ∷ [])
    ∷ (true, (b'{' ∷ b'1' ∷ b'}' ∷ 0 ∷ []) ∷ [])
    ∷ (false, [])
    ∷ (true, (b'a' ∷ 0 ∷ []) ∷ [])
    ∷ (false, [])
    ∷ []

run-script : run small one_text script ≡ some replies
unfolding run call push push_blob flush_once_with_sender_ex
run-script = refl

-- Forty characters are cut to the fifteen that fit before the NUL.
push_cuts : payload (text_entry small (blank small) (replicate 40 7)) ≡ replicate 15 7 ++ 0 ∷ []
push_cuts = refl

run_refines_example :
    run small one_text script ≡ some (Queue.run small (contents small one_text) script)
run_refines_example = run_refines small one_text script small-IsConfig one_text-IsValid

abbrev log_text : List ℕ → List (List ℕ) → Bool × List (List ℕ)
log_text s log = (true, s ∷ log)
