-- ===== src/Cache/Text.antt =====
-- What a sender of strings reads from an entry (components/utils/src/cache.c,
-- cache_flush_once_with_sender).
use esp_mo_net.Base.{
  ◌∷◌, List, ℕ, Bool, c_string, ◌>>=◌, IsText, ◌≡◌, some, ◌<◌, take, length, arith, true, none, ap,
  sym, take_whole, ◌∙◌, c_string-IsText,
}
use esp_mo_net.Cache.{Config, Cache, TextSender, flush_once_with_sender, drop_head, entry_at}
use esp_mo_net.Cache.Invariant.{IsConfig, IsValid, entry-Fits}
use esp_mo_net.Cache.Refine.{contents, payload, length-waiting}
use esp_mo_net.Cache.Run.{waiting_of_pos}
use esp_mo_net.Cache.Queue

-- A sender that takes its item for a C string.
unfoldable pub text_sender : {W : Type 0} → (List ℕ → W → Bool × W) → TextSender W
text_sender send bytes w = c_string bytes >>= λ s. some (send s w)

module _ {cfg : Config} (c : Cache) (k : IsConfig cfg) (v : IsValid cfg c) where
  pub count_pos : (x : List ℕ) (rest : List (List ℕ)) → contents cfg c ≡ x ∷ rest → 0 < c.count
  count_pos x rest e = omega (arith, length-waiting cfg c.buf c.head c.count, ap length e)

  pub head_payload :
      (x : List ℕ) (rest : List (List ℕ))
      → contents cfg c ≡ x ∷ rest
      → payload (entry_at cfg c c.head) ≡ x
  head_payload x rest e =
      ground (arith, waiting_of_pos cfg c.buf c.head c.count (count_pos x rest e))

  pub rest_waiting :
      (x : List ℕ) (rest : List (List ℕ))
      → contents cfg c ≡ x ∷ rest
      → contents cfg (drop_head cfg c true) ≡ rest
  rest_waiting x rest e =
      ground (arith, waiting_of_pos cfg c.buf c.head c.count (count_pos x rest e))

  -- In a cache of valid shape whose oldest payload is a blob without NUL that fills its entry, a
  -- flush with a sender of strings reads past the entry.
  full_blob_faults :
      {W : Type 0} (send : List ℕ → W → Bool × W) (w : W) (blob : List ℕ) (rest : List (List ℕ))
      → IsText blob
      → length blob ≡ cfg.item_size
      → contents cfg c ≡ blob ∷ rest
      → flush_once_with_sender cfg c (some (text_sender send)) w ≡ none
  unfolding flush_once_with_sender text_sender
  full_blob_faults send w blob rest t full e =
      let item = entry_at cfg c c.head in
      let size : length (take item.len item.bytes) ≡ length item.bytes =
        omega
          (arith, ap length (head_payload blob rest e), (entry-Fits c k v c.head v.head_in).0) in
      let whole : item.bytes ≡ blob =
        sym (take_whole item.len item.bytes size) ∙ head_payload blob rest e in
      ground (arith, whole, c_string-IsText blob t, count_pos blob rest e)
