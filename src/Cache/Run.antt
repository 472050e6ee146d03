-- ===== src/Cache/Run.antt =====
-- Whole histories of calls of components/utils/src/cache.c against the queue of payloads.
use esp_mo_net.Base.{
  [], ◌∷◌, refl, zero, suc, Bool, List, ℕ, Option, some, ◌<◌, take, ◌>>=◌, ◌≡◌, arith, get_or, ◌+◌,
  Bool-cases, ◌%◌, ◌-◌, inl, inr,
}
use esp_mo_net.Cache.{
  Config, BlobSender, Cache, Entry, push, push_blob, flush_once_with_sender_ex, blank, is_empty,
  drop_head,
}
use esp_mo_net.Cache.Invariant.{
  IsConfig, IsValid, push-IsValid, push_blob-IsValid, drop_head-IsValid,
}
use esp_mo_net.Cache.Refine.{waiting, payload, contents, push_refines, push_blob_refines}
use esp_mo_net.Cache.Queue

-- A sender that notes what it was given, and answers `taken`.
abbrev note_item : Bool → BlobSender (List (List ℕ))
note_item taken item len given = some (taken, take len item ∷ given)

unfoldable pub call : Config → Cache → Queue.Op → Option (Queue.Reply × Cache)
call cfg c (Queue.push_text json) = let (r, c') = push cfg c json in some ((r, []), c')
call cfg c (Queue.push_bytes blob) = let (r, c') = push_blob cfg c blob in some ((r, []), c')
call cfg c (Queue.flush taken) =
    flush_once_with_sender_ex cfg c (some (note_item taken)) [] >>= λ (r, c', given).
    some ((r, given), c')

unfoldable pub run : Config → Cache → List Queue.Op → Option (List Queue.Reply)
run cfg c [] = some []
run cfg c (op ∷ ops) = call cfg c op >>= λ (r, c'). run cfg c' ops >>= λ rs. some (r ∷ rs)

-- The oldest entry is at the head.
pub waiting_of_pos :
    (cfg : Config) (buf : List Entry) (h n : ℕ)
    → 0 < n
    → waiting cfg buf h n
      ≡ payload (get_or buf h (blank cfg)) ∷ waiting cfg buf ((h + 1) % cfg.max_items) (n - 1)
waiting_of_pos cfg buf h zero p = absurd (omega arith)
waiting_of_pos cfg buf h (suc n) p = let e : suc n - 1 ≡ n = omega arith in rw e

waiting_zero : (cfg : Config) (buf : List Entry) (h n : ℕ) → n ≡ 0 → waiting cfg buf h n ≡ []
waiting_zero cfg buf h zero p = refl
waiting_zero cfg buf h (suc n) p = absurd (omega arith)

module _ {cfg : Config} (c : Cache) (k : IsConfig cfg) (v : IsValid cfg c) where
  -- A call ends without a fault, keeps the invariant, and does what the queue does.
  abbrev pub Agrees : Queue.Op → Option (Queue.Reply × Cache) → Type 0
  Agrees op r =
      (c' : Cache) × IsValid cfg c'
      × (r ≡ some ((Queue.step cfg (contents cfg c) op).0, c'))
      × (contents cfg c' ≡ (Queue.step cfg (contents cfg c) op).1)

  call_refines : (op : Queue.Op) → Agrees op (call cfg c op)
  unfolding call Queue.step Queue.offer flush_once_with_sender_ex
  call_refines (Queue.push_text json) = (
    (push cfg c json).1,
    push-IsValid c k v json,
    ground (arith, push_refines c k v json),
    ground (arith, push_refines c k v json),
  )
  call_refines (Queue.push_bytes blob) = (
    (push_blob cfg c blob).1,
    push_blob-IsValid c k v blob,
    ground (arith, push_blob_refines c k v blob),
    ground (arith, push_blob_refines c k v blob),
  )
  call_refines (Queue.flush taken) = elim (Bool-cases (is_empty c)) [
    | inl empty ↦ (
      c,
      v,
      ground (arith, waiting_zero cfg c.buf c.head c.count),
      ground (arith, waiting_zero cfg c.buf c.head c.count),
    )
    | inr more ↦ (
      drop_head cfg c taken,
      drop_head-IsValid c k v taken (ground arith),
      ground (arith, waiting_of_pos cfg c.buf c.head c.count),
      ground (arith, waiting_of_pos cfg c.buf c.head c.count),
    )
  ]

-- For a cache of valid shape, no history of pushes of texts and blobs and of flushes with a
-- length-aware sender tells the ring from the bounded queue of its payloads, and none runs into a
-- fault.
pub run_refines :
    (cfg : Config) (c : Cache) (ops : List Queue.Op)
    → IsConfig cfg
    → IsValid cfg c
    → run cfg c ops ≡ some (Queue.run cfg (contents cfg c) ops)
unfolding run Queue.run
run_refines cfg c [] k v = refl
run_refines cfg c (op ∷ ops) k v =
    let (c', v', answer, left) = call_refines c k v op in
    rw (answer, run_refines cfg c' ops k v', left)
