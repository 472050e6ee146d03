-- ===== src/Cache/Queue.antt =====
-- What the cache promises: a bounded queue of payloads, oldest first. A payload that finds the queue
-- full is dropped, and one leaves the queue only when it was sent.
use esp_mo_net.Cache.{
  Config, ℕ, List, Bool, if◌then◌else◌, false, take, length, ◌-◌, ltb, ◌==◌, true,
}
use esp_mo_net.Base.{[], ◌++◌, ◌∷◌}

unfoldable pub enqueue : ℕ → List (List ℕ) → List ℕ → Bool × List (List ℕ)
enqueue room q x = if length q == room then (false, q) else (true, q ++ x ∷ [])

-- The head is offered, and stays where it was not taken.
unfoldable pub offer : List (List ℕ) → Bool → Bool × List (List ℕ) × List (List ℕ)
offer [] taken = (false, [], [])
offer (x ∷ q) taken = (taken, (if taken then q else x ∷ q), x ∷ [])

pub data Op : Type 0 where
  push_text push_bytes : List ℕ → Op
  flush : Bool → Op

-- The answer to a call, and what a sender was given.
abbrev pub Reply : Type 0
Reply = Bool × List (List ℕ)

-- A text is cut to the entry's size and closed by a NUL.
abbrev pub text_payload : Config → List ℕ → List ℕ
text_payload cfg json = take (cfg.item_size - 1) json ++ 0 ∷ []

unfoldable pub step : Config → List (List ℕ) → Op → Reply × List (List ℕ)
unfolding enqueue offer
step cfg q (push_text json) =
    let (r, q') = enqueue cfg.max_items q (text_payload cfg json) in ((r, []), q')
step cfg q (push_bytes blob) =
    let (r, q') = enqueue cfg.max_items q blob in
    if ltb cfg.item_size (length blob) then ((false, []), q) else ((r, []), q')
step cfg q (flush taken) = let (r, q', given) = offer q taken in ((r, given), q')

unfoldable pub run : Config → List (List ℕ) → List Op → List Reply
run cfg q [] = []
run cfg q (op ∷ ops) = let (r, q') = step cfg q op in r ∷ run cfg q' ops
