-- ===== src/Uploader/Flush.antt =====
-- What the flushes at the end of the sink of components/service/src/http_uploader_service.c leave of the queue.
use mathlib.Core.List.{append_assoc}
use esp_mo_net.Base.{
  [], ◌∷◌, ◌++◌, none, some, refl, Option-cases, Bool-cases, ℕ, List, Option, arith, ◌≡◌, length,
  ◌+◌, c_string, Bool, false, ◌≤◌, ◌∙◌, ◌≢◌, ap, true, sym, inl, inr, length-append, take, ltb,
  c_string-take,
}
use esp_mo_net.Cache.{
  Config, Cache, settle, is_empty, drop_head, flush_once_with_sender, flush_once_with_sender_ex,
  entry_at,
}
use esp_mo_net.Cache.Invariant.{IsConfig, IsValid, drop_head-IsValid, entry-Fits}
use esp_mo_net.Cache.Refine.{contents}
use esp_mo_net.Uploader.{Net, flush_cache, image_sender}
use esp_mo_net.Cache.Text.{text_sender, count_pos, rest_waiting, head_payload}
use esp_mo_net.Cache.Run.{waiting_of_pos}

-- At most `n` of the oldest payloads have left, and nothing was added.
pub record Shrinks (n : ℕ) (before after : List (List ℕ)) : Type 0 where
  gone : List (List ℕ)
  split : before ≡ gone ++ after
  few : length gone ≤ n

Shrinks-trans :
    {m n : ℕ} {xs ys zs : List (List ℕ)} → Shrinks m xs ys → Shrinks n ys zs → Shrinks (m + n) xs zs
Shrinks-trans {zs = zs} s t = record {
  gone = s.gone ++ t.gone;
  split = s.split ∙ ap (λ q. s.gone ++ q) t.split ∙ sym (append_assoc s.gone t.gone zs);
  few = omega (arith, s.few, t.few, length-append s.gone t.gone);
}

-- The oldest payload, if there is one, has an end as a string.
abbrev pub OldestEnds : List (List ℕ) → Type 0
OldestEnds [] = Unit {0}
OldestEnds (x ∷ rest) = c_string x ≢ none

module _ (cfg : Config) (c : Cache) where
  kept : Shrinks 1 (contents cfg c) (contents cfg c)
  kept = record { gone = []; split = refl; few = omega arith }

  oldest : is_empty c ≡ false → (x : List ℕ) × (rest : List (List ℕ)) × (contents cfg c ≡ x ∷ rest)
  oldest some_left = (_, _, waiting_of_pos cfg c.buf c.head c.count (ground arith))

-- A sender of strings reads an entry whose payload has an end.
text_sender_reads :
    {W : Type 0} (send : List ℕ → W → Bool × W) (w : W) (n : ℕ) (bytes : List ℕ)
    → c_string (take n bytes) ≢ none
    → text_sender send bytes w ≢ none
unfolding text_sender
text_sender_reads send w n bytes ends = elim (Option-cases (c_string (take n bytes))) [
  | inl e ↦ absurd (ends e)
  | inr (s, e) ↦ rw (c_string-take n bytes s e) (λ z. cc)
]

module _ {W : Type 0} {cfg : Config} (c : Cache) (k : IsConfig cfg) (v : IsValid cfg c) where
  -- A flush that ends without a fault.
  abbrev pub Flushed : Option (Bool × Cache × W) → Type 0
  Flushed r =
      (sent : Bool) × (c' : Cache) × (w' : W) × (r ≡ some (sent, c', w'))
      × IsValid cfg c'
      × Shrinks 1 (contents cfg c) (contents cfg c')

  pub settle-Flushed :
      (w : W) (o : Option (Bool × W)) → (is_empty c ≡ false → o ≢ none) → Flushed (settle cfg c w o)
  settle-Flushed w o answers = elim (Bool-cases (is_empty c)) [
    | inl empty ↦ unsent o empty
    | inr some_left ↦ answered o some_left (answers some_left)
  ]
    where
      unsent : (o : Option (Bool × W)) → is_empty c ≡ true → Flushed (settle cfg c w o)
      unsent none empty = rw empty (false, c, w, refl, v, kept cfg c)
      unsent (some (sent, w')) empty = rw empty (false, c, w, refl, v, kept cfg c)

      answered :
          (o : Option (Bool × W)) → is_empty c ≡ false → o ≢ none → Flushed (settle cfg c w o)
      answered none some_left ne = absurd (ne refl)
      answered (some (false, w')) some_left ne = rw some_left (false, c, w', refl, v, kept cfg c)
      answered (some (true, w')) some_left ne =
          let (x, rest, e) = oldest cfg c some_left in
          rw some_left (
            true,
            drop_head cfg c true,
            w',
            refl,
            drop_head-IsValid c k v true (count_pos c k v x rest e),
            record {
              gone = x ∷ [];
              split = e ∙ ap (◌∷◌ x) (sym (rest_waiting c k v x rest e));
              few = omega arith;
            },
          )

  text-Flushed :
      (send : List ℕ → W → Bool × W) (w : W)
      → OldestEnds (contents cfg c)
      → Flushed (flush_once_with_sender cfg c (some (text_sender send)) w)
  unfolding flush_once_with_sender text_sender
  text-Flushed send w ends = settle-Flushed w _ (λ some_left.
      let (x, rest, e) = oldest cfg c some_left in
      let ends' : c_string x ≢ none = rw e at ends in
      text_sender_reads send w (entry_at cfg c c.head).len (entry_at cfg c c.head).bytes
        (rw (head_payload c k v x rest e) ends'))

  image-Flushed :
      (net : Net W) (w : W)
      → Flushed (flush_once_with_sender_ex cfg c (some (image_sender cfg net)) w)
  unfolding flush_once_with_sender_ex
  image-Flushed net w = settle-Flushed w _ (λ some_left.
      let short : ltb (length (entry_at cfg c c.head).bytes) (entry_at cfg c c.head).len ≡ false =
        ground (arith, entry-Fits c k v c.head v.head_in) in
      rw short (λ z. cc))

-- The flushes of the sink end without a fault and give at most two payloads away.
pub flush_cache-Shrinks :
    {W : Type 0} {cfg : Config} (net : Net W) (c : Cache) (w : W)
    → IsConfig cfg
    → IsValid cfg c
    → OldestEnds (contents cfg c)
    → (c' : Cache) × (w' : W) × (flush_cache cfg net c w ≡ some (c', w'))
      × IsValid cfg c'
      × Shrinks 2 (contents cfg c) (contents cfg c')
unfolding flush_cache
flush_cache-Shrinks net c w k v ends =
    let (sent₁, c₁, w₁, e₁, v₁, s₁) = text-Flushed c k v net.post_send w ends in
    let (sent₂, c₂, w₂, e₂, v₂, s₂) = image-Flushed c₁ k v₁ net w₁ in
    (c₂, w₂, rw (e₁, e₂) refl, v₂, Shrinks-trans s₁ s₂)
