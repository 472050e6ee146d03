-- ===== src/Bus/Shape.antt =====
-- The arrays of components/monet_core/src/msg_bus.c: their sizes, and the group's array filled from
-- the front with `group_queue_count` handles.
use mathlib.Core.Option
use native.Mathlib.Numerals.{add-one}
use mathlib.Core.Path.{subst}
use esp_mo_net.Base.{
  [], ◌∷◌, refl, zero, suc, ℕ, List, length, arith, ◌≡◌, ◌≤◌, ◌≢◌, some, All, Option, none, ap,
  Bool-cases, ◌<◌, ◌==◌, inl, All-get_or, ◌∙◌, inr, length-set, not, All-set, ◌||◌, leb,
}
use esp_mo_net.Bus.{
  Bus, init, place, max_subscribers_per_topic, max_subscribers_per_group, subscribe,
  subscribe_group, row, subscribe_slots, subscribe_row,
}
use esp_mo_net.Message.{sensor_max, group_sensor}

-- The first `n` slots hold handles, and all the others NULL.
abbrev pub Packed : ℕ → List ℕ → Type 0
Packed n [] = n ≡ 0
Packed zero (s ∷ slots) = (s ≡ 0) × Packed zero slots
Packed (suc n) (s ∷ slots) = (s ≢ 0) × Packed n slots

pub record IsValid (bus : Bus) : Type 0 where
  pub topics : length bus.subscriber_queues ≡ sensor_max
  pub slots : All (λ r. length r ≡ max_subscribers_per_topic) bus.subscriber_queues
  pub group : length bus.group_queues ≡ max_subscribers_per_group
  pub packed : Packed bus.group_queue_count bus.group_queues

pub init-IsValid : IsValid init
unfolding init
init-IsValid = ground arith

pub Packed-le : (n : ℕ) (slots : List ℕ) → Packed n slots → n ≤ length slots
Packed-le n [] p = omega arith
Packed-le zero (s ∷ slots) p = omega arith
Packed-le (suc n) (s ∷ slots) p = omega (arith, Packed-le n slots p.1)

-- `ys` is `xs` with `q` in its first NULL slot.
pub data Placed (q : ℕ) : List ℕ → List ℕ → Type 0 where
  here : {s : ℕ} {xs : List ℕ} → s ≡ 0 → Placed q (s ∷ xs) (q ∷ xs)
  there : {s : ℕ} {xs ys : List ℕ} → s ≢ 0 → Placed q xs ys → Placed q (s ∷ xs) (s ∷ ys)

pub place-Placed : (q : ℕ) (xs : List ℕ) {ys : List ℕ} → place q xs ≡ some ys → Placed q xs ys
unfolding place
place-Placed q [] e = absurd (cc)
place-Placed q (s ∷ xs) {ys} e = elim (Bool-cases (s == 0)) [
  | inl z ↦ subst (Placed q (s ∷ xs)) (cc (rw z at e)) (here (ground arith))
  | inr nz ↦ deeper (ground arith) (place q xs) (λ t. place-Placed q xs {ys = t}) (rw nz at e)
]
  where
    deeper :
        s ≢ 0
        → (o : Option (List ℕ)) → ((t : List ℕ) → o ≡ some t → Placed q xs t)
        → Option.map (◌∷◌ s) o ≡ some ys
        → Placed q (s ∷ xs) ys
    deeper nz none ih g = absurd (cc)
    deeper nz (some t) ih g = subst (Placed q (s ∷ xs)) (cc) (there nz (ih t refl))

-- Only a full array has no place.
pub place-none : (q : ℕ) (xs : List ℕ) → place q xs ≡ none → All (λ s. s ≢ 0) xs
unfolding place
place-none q [] e = tt
place-none q (s ∷ xs) e = ground (arith, place-none q xs)

Placed-length : {q : ℕ} {xs ys : List ℕ} → Placed q xs ys → length ys ≡ length xs
Placed-length (here z) = refl
Placed-length (there nz p) = ap suc (Placed-length p)

Placed-Packed :
    {q : ℕ} {xs ys : List ℕ} (n : ℕ) → q ≢ 0 → Placed q xs ys → Packed n xs → Packed (suc n) ys
Placed-Packed zero nq (here {xs = xs} z) k = (nq, k.1)
Placed-Packed (suc n) nq (here z) k = absurd (k.0 z)
Placed-Packed zero nq (there nz p) k = absurd (nz k.0)
Placed-Packed (suc n) nq (there nz p) k = (nz, Placed-Packed n nq p k.1)

abbrev IsRow : List ℕ → Type 0
IsRow r = length r ≡ max_subscribers_per_topic

pub row-IsRow : (bus : Bus) (topic : ℕ) → topic < sensor_max → IsValid bus → IsRow (row bus topic)
row-IsRow bus topic h v = All-get_or IsRow bus.subscriber_queues topic [] (omega arith) v.slots

-- `msg_bus_subscribe` keeps the shape, whatever it is given.
pub subscribe-IsValid :
    (bus : Bus) (topic queue : ℕ) → IsValid bus → IsValid (subscribe bus topic queue).1
unfolding subscribe
subscribe-IsValid bus topic queue v = elim (Bool-cases (queue == 0 || leb sensor_max topic)) [
  | inl bad ↦ rw bad v
  | inr good ↦ rw good (placed (place queue (row bus topic)) refl (ground arith))
]
  where
    placed :
        (o : Option (List ℕ))
        → place queue (row bus topic) ≡ o
        → topic < sensor_max
        → IsValid (subscribe_row bus topic o).1
    placed none e h = record {
      topics = v.topics;
      slots = v.slots;
      group = v.group;
      packed = v.packed;
    }
    placed (some r) e h = record {
      topics = length-set bus.subscriber_queues topic r ∙ v.topics;
      slots =
          All-set IsRow bus.subscriber_queues topic r
            (Placed-length (place-Placed queue (row bus topic) e) ∙ row-IsRow bus topic h v)
            v.slots;
      group = v.group;
      packed = v.packed;
    }

-- A subscription to a group, accepted or refused, keeps a valid bus valid: the arrays keep their
-- sizes, and the group's count stays the number of handles at the front of its array.
pub subscribe_group-IsValid :
    (bus : Bus) (group_id queue : ℕ) → IsValid bus → IsValid (subscribe_group bus group_id queue).1
unfolding subscribe_group
subscribe_group-IsValid bus group_id queue v =
    elim (Bool-cases (not (group_id == group_sensor) || queue == 0)) [
      | inl bad ↦ rw bad v
      | inr good ↦ rw good (placed (place queue bus.group_queues) refl (ground arith))
    ]
  where
    placed :
        (o : Option (List ℕ))
        → place queue bus.group_queues ≡ o
        → queue ≢ 0
        → IsValid (subscribe_slots bus o).1
    placed none e h = record {
      topics = v.topics;
      slots = v.slots;
      group = v.group;
      packed = v.packed;
    }
    placed (some r) e h = record {
      topics = v.topics;
      slots = v.slots;
      group = Placed-length (place-Placed queue bus.group_queues e) ∙ v.group;
      packed =
          rw add-one (
            Placed-Packed bus.group_queue_count h (place-Placed queue bus.group_queues e) v.packed);
    }
