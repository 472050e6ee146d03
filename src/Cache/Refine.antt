-- ===== src/Cache/Refine.antt =====
-- The ring of components/utils/src/cache.c behaves as the bounded queue of its payloads.
use esp_mo_net.Base.{
  refl, zero, suc, [], ◌∷◌, ◌++◌, ◌+◌, ◌≡◌, ap, overwrite_lem, ◌%◌, ◌≢◌, set, arith,
  get_or-set_self, ◌-◌, get_or-set_ne, take-append, ◌∙◌, length-take, min, take-min, set-overwrite,
  take-append-add, if◌then◌else◌, ltb, false,
}
use native.Mathlib.Numerals.{add-one}
use native.Mathlib.Nat.{mod-add-mod, mod-eq_of_lt, mod-eq-sub-mod, add-zero}
use native.Mathlib.Decide.{dec_lt}
use mathlib.Core.Path.{ap₂}
use Prim.Native.Nat.{ℕ, ◌<◌, suc, ◌≤◌}
use esp_mo_net.Cache.{
  Entry, Config, List, Cache, take, length, get_or, blank, append_entry, text_entry, entry_at,
  blob_entry, push, push_blob,
}
use esp_mo_net.Cache.Invariant.{IsConfig, IsValid, entry-Fits}
use esp_mo_net.Cache.Queue

-- The first `len` bytes of an entry.
abbrev pub payload : Entry → List ℕ
payload e = take e.len e.bytes

-- The payloads of the `n` entries from index `h` on, round the ring.
abbrev pub waiting : Config → List Entry → ℕ → ℕ → List (List ℕ)
waiting cfg buf h zero = []
waiting cfg buf h (suc n) =
    payload (get_or buf h (blank cfg)) ∷ waiting cfg buf ((h + 1) % cfg.max_items) n

abbrev pub contents : Config → Cache → List (List ℕ)
contents cfg c = waiting cfg c.buf c.head c.count

pub length-waiting : (cfg : Config) (buf : List Entry) (h n : ℕ) → length (waiting cfg buf h n) ≡ n
length-waiting cfg buf h zero = refl
length-waiting cfg buf h (suc n) = ap suc (length-waiting cfg buf ((h + 1) % cfg.max_items) n)

-- Fewer than `m` steps round a ring of `m` places do not lead back.
round_ne : (m h k : ℕ) → h < m → suc k < m → (h + suc k) % m ≢ h
round_ne m h k hh hk = elim (dec_lt (h + suc k) m) [
  | yes p ↦ omega (arith, mod-eq_of_lt p)
  | no p ↦ omega (
    arith,
    mod-eq-sub-mod {n = h + suc k} {m = m} (omega arith),
    mod-eq_of_lt {n = h + suc k - m} {m = m} (omega arith),
  )
]

-- An entry written behind the last one comes last.
waiting-set :
    (cfg : Config) (buf : List Entry) (e : Entry) (n h i : ℕ)
    → length buf ≡ cfg.max_items
    → h < cfg.max_items
    → n < cfg.max_items
    → i ≡ (h + n) % cfg.max_items
    → waiting cfg (set buf i e) h (suc n) ≡ waiting cfg buf h n ++ payload e ∷ []
waiting-set cfg buf e zero h i hl hh hn at =
    rw (at, add-zero, mod-eq_of_lt hh, get_or-set_self buf h e (blank cfg) (omega arith))
waiting-set cfg buf e (suc n) h i hl hh hn at =
    ap₂ ◌∷◌
      (ap payload (get_or-set_ne buf e (blank cfg) (rw at (round_ne cfg.max_items h n hh hn))))
      (waiting-set cfg buf e n ((h + 1) % cfg.max_items) i hl (omega arith) (omega arith)
        (at ∙ rw mod-add-mod (ap (λ k. k % cfg.max_items) (omega arith))))

module _ {cfg : Config} (c : Cache) (k : IsConfig cfg) (v : IsValid cfg c) where
  contents-append_entry :
      (e : Entry)
      → c.count < cfg.max_items
      → contents cfg (append_entry cfg c e) ≡ contents cfg c ++ payload e ∷ []
  contents-append_entry e h =
      rw add-one (waiting-set cfg c.buf e c.count c.head c.tail v.slots v.head_in h v.tail_at)

  payload-text_entry :
      (json : List ℕ)
      → payload (text_entry cfg (entry_at cfg c c.tail) json) ≡ Queue.text_payload cfg json
  payload-text_entry json =
      let cut = take (cfg.item_size - 1) json in
      let dst = (entry_at cfg c c.tail).bytes in
      let room : length cut < length dst = omega (
        arith,
        length-take {0} (cfg.item_size - 1) json,
        (entry-Fits c k v c.tail (omega arith)).0,
      ) in
      let size : length cut ≡ min (length json) (cfg.item_size - 1) =
        omega (arith, length-take {0} (cfg.item_size - 1) json) in
      rw (take-min, ← size, set-overwrite cut dst 0 room) (take-append-add cut _ 1)

  payload-blob_entry :
      (blob : List ℕ)
      → length blob ≤ cfg.item_size
      → payload (blob_entry (entry_at cfg c c.tail) blob) ≡ blob
  payload-blob_entry blob h =
      rw
        (overwrite_lem blob (entry_at cfg c c.tail).bytes
          (omega (arith, (entry-Fits c k v c.tail (omega arith)).0)))
        (take-append blob _)

  -- `cache_push` answers as the queue does and leaves the ring holding its payloads.
  pub push_refines :
      (json : List ℕ)
      → let (r, c') = push cfg c json in
        (r, contents cfg c')
        ≡ Queue.enqueue cfg.max_items (contents cfg c) (Queue.text_payload cfg json)
  unfolding push Queue.enqueue
  push_refines json = ground (
    arith,
    length-waiting cfg c.buf c.head c.count,
    contents-append_entry (text_entry cfg (entry_at cfg c c.tail) json),
    payload-text_entry json,
    v.count_in,
  )

  -- So does `cache_push_blob`, which refuses a blob that is larger than an entry.
  pub push_blob_refines :
      (blob : List ℕ)
      → let (r, c') = push_blob cfg c blob in
        (r, contents cfg c') ≡ (
          if ltb cfg.item_size (length blob)
          then (false, contents cfg c)
          else Queue.enqueue cfg.max_items (contents cfg c) blob)
  unfolding push_blob Queue.enqueue
  push_blob_refines blob = ground (
    arith,
    length-waiting cfg c.buf c.head c.count,
    contents-append_entry (blob_entry (entry_at cfg c c.tail) blob),
    payload-blob_entry blob,
    v.count_in,
  )
