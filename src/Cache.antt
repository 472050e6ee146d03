-- ===== src/Cache.antt =====
-- components/utils/src/cache.c: the ring of payloads that wait for a connection.
-- The static variables are the fields of `Cache`, and each function returns the new cache beside
-- its result. A sender is a callback with effects on a state `W` of its own; `none` is a fault.
pub mod Invariant
pub mod Queue
pub mod Refine
pub mod Run
pub mod Text
mod Tests
use esp_mo_net.Base.{
  ℕ, ◌+◌, ◌-◌, ◌%◌, ◌≡◌, Bool, true, false, Option, none, some, List, length, get_or, set, take,
  overwrite, replicate, min, ltb, ◌==◌, if◌then◌else◌,
}

-- CONFIG_CACHE_MAX_ITEMS and CONFIG_CACHE_ITEM_SIZE of the build's configuration.
pub record Config : Type 0 where
  pub max_items : ℕ
  pub item_size : ℕ

-- `cache_entry_t`
pub record Entry : Type 0 where
  pub bytes : List ℕ
  pub len : ℕ

pub record Cache : Type 0 where
  pub buf : List Entry
  pub head : ℕ
  pub tail : ℕ
  pub count : ℕ

abbrev pub blank : Config → Entry
blank cfg = record { bytes = replicate cfg.item_size 0; len = 0 }

-- The static variables as the program starts.
unfoldable pub init : Config → Cache
init cfg = record { buf = replicate cfg.max_items (blank cfg); head = 0; tail = 0; count = 0 }

abbrev pub is_full : Config → Cache → Bool
is_full cfg c = c.count == cfg.max_items

abbrev pub is_empty : Cache → Bool
is_empty c = c.count == 0

-- `cache_buf[i]`
abbrev pub entry_at : Config → Cache → ℕ → Entry
entry_at cfg c i = get_or c.buf i (blank cfg)

-- The entry at the tail is written, and the tail goes on.
abbrev pub append_entry : Config → Cache → Entry → Cache
append_entry cfg c e = record c {
  buf = set c.buf c.tail e;
  tail = (c.tail + 1) % cfg.max_items;
  count = c.count + 1;
}

-- What `cache_push` leaves in the entry that it writes.
abbrev pub text_entry : Config → Entry → List ℕ → Entry
text_entry cfg e json =
    let len = min (length json) (cfg.item_size - 1) in
    record { bytes = set (overwrite (take len json) e.bytes) len 0; len = len + 1 }

unfoldable pub push : Config → Cache → List ℕ → Bool × Cache
push cfg c json =
    if is_full cfg c
    then (false, c)
    else (true, append_entry cfg c (text_entry cfg (entry_at cfg c c.tail) json))

-- What `cache_push_blob` leaves in the entry that it writes.
abbrev pub blob_entry : Entry → List ℕ → Entry
blob_entry e blob = record { bytes = overwrite blob e.bytes; len = length blob }

unfoldable pub push_blob : Config → Cache → List ℕ → Bool × Cache
push_blob cfg c blob =
    if is_full cfg c
    then (false, c)
    else if ltb cfg.item_size (length blob)
    then (false, c)
    else (true, append_entry cfg c (blob_entry (entry_at cfg c c.tail) blob))

-- The head goes on if the item was sent.
abbrev pub drop_head : Config → Cache → Bool → Cache
drop_head cfg c sent =
    if sent then (record c { head = (c.head + 1) % cfg.max_items; count = c.count - 1 }) else c

-- `bool (*)(const char *)`: the bytes are those that stand at the pointer.
abbrev pub TextSender : Type 0 → Type 0
TextSender W = List ℕ → W → Option (Bool × W)

-- `bool (*)(const uint8_t *, size_t)`
abbrev pub BlobSender : Type 0 → Type 0
BlobSender W = List ℕ → ℕ → W → Option (Bool × W)

module _ {W : Type 0} where
  -- The sender's answer is used unless the cache is empty; a fault of the sender is one of the flush.
  abbrev pub settle : Config → Cache → W → Option (Bool × W) → Option (Bool × Cache × W)
  settle cfg c w none = if is_empty c then some (false, c, w) else none
  settle cfg c w (some (sent, w')) =
      if is_empty c then some (false, c, w) else some (sent, drop_head cfg c sent, w')

  unfoldable pub flush_once_with_sender :
      Config → Cache → Option (TextSender W) → W → Option (Bool × Cache × W)
  flush_once_with_sender cfg c none w = some (false, c, w)
  flush_once_with_sender cfg c (some send_fn) w =
      settle cfg c w (send_fn (entry_at cfg c c.head).bytes w)

  unfoldable pub flush_once_with_sender_ex :
      Config → Cache → Option (BlobSender W) → W → Option (Bool × Cache × W)
  flush_once_with_sender_ex cfg c none w = some (false, c, w)
  flush_once_with_sender_ex cfg c (some send_fn) w =
      let item = entry_at cfg c c.head in settle cfg c w (send_fn item.bytes item.len w)

get_count : Cache → ℕ
get_count c = c.count
