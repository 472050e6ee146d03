-- ===== src/Cache/Invariant.antt =====
-- The representation invariant of the cache's ring (components/utils/src/cache.c).
use esp_mo_net.Base.{
  ℕ, ◌+◌, ◌-◌, ◌%◌, ◌≤◌, ◌<◌, ◌≡◌, ap, ◌∙◌, ◌⊎◌, Option, none, Bool, true, false, some, inl, inr,
  ltb, Bool-cases, List, length, take, min, replicate, overwrite, All, All-get_or, All-set,
  length-set, length-replicate, length-overwrite, arith,
}
use native.Mathlib.Nat.{mod-add-mod}
use esp_mo_net.Cache.{
  Config, Entry, Cache, settle, is_full, init, blank, entry_at, append_entry, drop_head, text_entry,
  blob_entry, push, push_blob,
}

-- The ranges of components/utils/Kconfig.
pub record IsConfig (cfg : Config) : Type 0 where
  pub some_items : 1 ≤ cfg.max_items
  pub few_items : cfg.max_items ≤ 256
  pub some_bytes : 16 ≤ cfg.item_size
  pub few_bytes : cfg.item_size ≤ 512

abbrev Fits : Config → Entry → Type 0
Fits cfg e = (length e.bytes ≡ cfg.item_size) × (e.len ≤ cfg.item_size)

pub record IsValid (cfg : Config) (c : Cache) : Type 0 where
  pub slots : length c.buf ≡ cfg.max_items
  pub fits : All (Fits cfg) c.buf
  pub head_in : c.head < cfg.max_items
  pub count_in : c.count ≤ cfg.max_items
  pub tail_at : c.tail ≡ (c.head + c.count) % cfg.max_items

All-replicate : (cfg : Config) (n : ℕ) → All (Fits cfg) (replicate n (blank cfg))
All-replicate cfg ℕ.zero = tt
All-replicate cfg (ℕ.suc n) = ((length-replicate cfg.item_size 0, omega arith), All-replicate cfg n)

pub init-IsValid : (cfg : Config) → IsConfig cfg → IsValid cfg (init cfg)
unfolding init
init-IsValid cfg k = record {
  slots = length-replicate cfg.max_items (blank cfg);
  fits = All-replicate cfg cfg.max_items;
  head_in = omega arith;
  count_in = omega arith;
  tail_at = omega arith;
}

module _ {cfg : Config} (c : Cache) (k : IsConfig cfg) (v : IsValid cfg c) where
  tail_in : c.tail < length c.buf
  tail_in = omega arith

  pub entry-Fits : (i : ℕ) → i < cfg.max_items → Fits cfg (entry_at cfg c i)
  entry-Fits i h = All-get_or (Fits cfg) c.buf i (blank cfg) (omega arith) v.fits

  -- A new entry at the tail keeps the invariant while there is room.
  append_entry-IsValid :
      (e : Entry) → Fits cfg e → c.count < cfg.max_items → IsValid cfg (append_entry cfg c e)
  append_entry-IsValid e f h = record {
    slots = length-set c.buf c.tail e ∙ v.slots;
    fits = All-set (Fits cfg) c.buf c.tail e f v.fits;
    head_in = v.head_in;
    count_in = omega arith;
    tail_at = rw (v.tail_at, mod-add-mod) (ap (λ n. n % cfg.max_items) (omega arith));
  }

  pub drop_head-IsValid : (sent : Bool) → 0 < c.count → IsValid cfg (drop_head cfg c sent)
  drop_head-IsValid false h = v
  drop_head-IsValid true h = record {
    slots = v.slots;
    fits = v.fits;
    head_in = omega arith;
    count_in = omega arith;
    tail_at = rw (v.tail_at, mod-add-mod) (ap (λ n. n % cfg.max_items) (omega arith));
  }

  text_entry-Fits : (json : List ℕ) → Fits cfg (text_entry cfg (entry_at cfg c c.tail) json)
  text_entry-Fits json = omega (
    arith,
    length-set {0} copied len 0,
    length-overwrite {0} (take len json) (entry_at cfg c c.tail).bytes,
    (entry-Fits c.tail (omega arith)).0,
  )
    where
      len : ℕ
      len = min (length json) (cfg.item_size - 1)

      copied : List ℕ
      copied = overwrite (take len json) (entry_at cfg c c.tail).bytes

  blob_entry-Fits :
      (blob : List ℕ)
      → length blob ≤ cfg.item_size
      → Fits cfg (blob_entry (entry_at cfg c c.tail) blob)
  blob_entry-Fits blob h =
      (length-overwrite blob (entry_at cfg c c.tail).bytes ∙ (entry-Fits c.tail (omega arith)).0, h)

  -- `cache_push` keeps the invariant.
  pub push-IsValid : (json : List ℕ) → IsValid cfg (push cfg c json).1
  unfolding push
  push-IsValid json = elim (Bool-cases (is_full cfg c)) [
    | inl full ↦ rw full v
    | inr room ↦ rw room (append_entry-IsValid _ (text_entry-Fits json) (ground arith))
  ]

  pub push_blob-IsValid : (blob : List ℕ) → IsValid cfg (push_blob cfg c blob).1
  unfolding push_blob
  push_blob-IsValid blob = elim (Bool-cases (is_full cfg c)) [
    | inl full ↦ rw full v
    | inr room ↦ elim (Bool-cases (ltb cfg.item_size (length blob))) [
      | inl large ↦ rw (room, large) v
      | inr small ↦
          rw (room, small)
            (append_entry-IsValid _ (blob_entry-Fits blob (ground arith)) (ground arith))
    ]
  ]

module _ {W : Type 0} (cfg : Config) (c c' : Cache) (w w' : W) (sent : Bool) where
  -- How a flush came to its result: the cache was empty, or the sender was given the oldest item.
  abbrev Flushed : Option (Bool × W) → Type 0
  Flushed answer =
      ((c.count ≡ 0) × (sent ≡ false) × (c' ≡ c) × (w' ≡ w))
      ⊎ ((0 < c.count) × (answer ≡ some (sent, w')) × (c' ≡ drop_head cfg c sent))

  settle_cases :
      (answer : Option (Bool × W)) → settle cfg c w answer ≡ some (sent, c', w') → Flushed answer
  settle_cases none h = ground arith
  settle_cases (some (b, u)) h = ground arith

  -- A flush keeps the invariant, whatever the sender answers.
  settle-IsValid :
      (answer : Option (Bool × W))
      → IsConfig cfg
      → IsValid cfg c
      → settle cfg c w answer ≡ some (sent, c', w')
      → IsValid cfg c'
  settle-IsValid answer k v e = elim (settle_cases answer e) [
    | inl (_, _, same, _) ↦ rw same v
    | inr (some_left, _, dropped) ↦ rw dropped (drop_head-IsValid c k v sent some_left)
  ]
