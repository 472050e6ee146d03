-- ===== src/Registry/Slots.antt =====
-- The slots of the bus (components/monet_core/src/msg_bus.c) that the topics of a service take
-- (components/monet_core/src/service_registry.c).
use esp_mo_net.Base.{
  [], ◌∷◌, refl, Bool-cases, inl, inr, arith, List, ℕ, if◌then◌else◌, ◌≢◌, ◌==◌, ◌≡◌, ◌≤◌, ◌+◌, min,
  leb, suc, ◌||◌, false, Option-cases,
}
use esp_mo_net.Service.{subscribe_topics, subscribe_topic}
use esp_mo_net.Bus.{Bus, subscribe, subscribe_group, max_subscribers_per_group, place, row}
use esp_mo_net.Bus.Shape.{subscribe-IsValid, subscribe_group-IsValid}
use esp_mo_net.Bus.Subscribe.{subscribe_group_count, subscribe_group_adds, subscribe_adds}
use esp_mo_net.Bus.Delivery.{subscriptions}
use esp_mo_net.Message.{group_sensor, sensor_max}
use esp_mo_net.Bus.Shape

-- How often topics name the group of all sensors.
abbrev pub group_uses : List ℕ → ℕ
group_uses [] = 0
group_uses (t ∷ ts) = (if t == group_sensor then 1 else 0) + group_uses ts

-- A topic takes no slot of the group, and an unknown group takes none at all.
subscribe_keeps :
    (bus : Bus) (t queue : ℕ) → (subscribe bus t queue).1.group_queue_count ≡ bus.group_queue_count
unfolding subscribe
subscribe_keeps bus t queue = elim (Bool-cases (queue == 0 || leb sensor_max t)) [
  | inl refused ↦ rw refused refl
  | inr taken ↦ elim (Option-cases (place queue (row bus t))) [
    | inl full ↦ rw (taken, full) refl
    | inr (slots, free) ↦ rw (taken, free) refl
  ]
]

unknown_group :
    (bus : Bus) (t queue : ℕ)
    → (t == group_sensor) ≡ false
    → subscribe_group bus t queue ≡ (false, bus)
unfolding subscribe_group
unknown_group bus t queue other = rw other refl

module _ (queue : ℕ) (nz : queue ≢ 0) where
  -- What one more subscription, or several, make of the bus.
  pub record Grows (n : ℕ) (bus bus' : Bus) : Type 0 where
    pub valid : Shape.IsValid bus'
    pub slots : bus'.group_queue_count ≡ min max_subscribers_per_group (bus.group_queue_count + n)
    pub kept : (t h : ℕ) → subscriptions bus t (suc h) ≤ subscriptions bus' t (suc h)

  within : (bus : Bus) → Shape.IsValid bus → bus.group_queue_count ≤ max_subscribers_per_group
  within bus v =
      omega (arith, Shape.Packed-le bus.group_queue_count bus.group_queues v.packed, v.group)

  topic-Grows :
      (t : ℕ) (bus : Bus)
      → Shape.IsValid bus
      → Grows (if t == group_sensor then 1 else 0) bus (subscribe_topic bus t queue).1
  topic-Grows t bus v = elim (Bool-cases (leb sensor_max t)) [
    | inr single ↦
        let no_group : (t == group_sensor) ≡ false = ground (arith, single) in
        rw (single, no_group)
          (record {
            valid = subscribe-IsValid bus t queue v;
            slots = omega (arith, within bus v, subscribe_keeps bus t queue);
            kept = λ t' h. (omega (arith, subscribe_adds bus v t queue t' (suc h) (omega arith)));
          })
    | inl group ↦ elim (Bool-cases (t == group_sensor)) [
      | inl all ↦
          rw (group, all)
            (record {
              valid = subscribe_group-IsValid bus t queue v;
              slots = ground (arith, subscribe_group_count bus v queue nz);
              kept = λ t' h.
                  (omega (arith, subscribe_group_adds bus v t queue t' (suc h) (omega arith)));
            })
      | inr other ↦
          rw (group, other, unknown_group bus t queue other)
            (record {
              valid = v;
              slots = omega (arith, within bus v);
              kept = λ t' h. (omega arith);
            })
    ]
  ]

  pub topics-Grows :
      (ts : List ℕ) (bus : Bus)
      → Shape.IsValid bus
      → Grows (group_uses ts) bus (subscribe_topics queue ts bus)
  unfolding subscribe_topics
  topics-Grows [] bus v = record {
    valid = v;
    slots = omega (arith, within bus v);
    kept = λ t h. (omega arith);
  }
  topics-Grows (t ∷ ts) bus v =
      let one = topic-Grows t bus v in
      let rest = topics-Grows ts (subscribe_topic bus t queue).1 one.valid in
      record {
        valid = rest.valid;
        slots = omega (arith, one.slots, rest.slots);
        kept = λ t' h. (omega (arith, one.kept t' h, rest.kept t' h));
      }
