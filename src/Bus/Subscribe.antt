-- ===== src/Bus/Subscribe.antt =====
-- When `msg_bus_subscribe` and `msg_bus_subscribe_group` (components/monet_core/src/msg_bus.c)
-- accept a queue, and which subscriptions that adds.
use esp_mo_net.Base.{
  [], ◌∷◌, refl, zero, suc, List, ℕ, ◌≤◌, All, ◌≢◌, ◌<◌, if◌then◌else◌, length, ◌≡◌, ◌==◌, arith,
  sym, some, true, ◌+◌, Option-cases, ◌↔◌, ◌&&◌, inl, ltb, inr, none, get_or-set_self, ◌⊎◌,
  get_or-set_ne, min,
}
use esp_mo_net.Bus.{
  Bus, place, subscribe, subscribe_group, row, max_subscribers_per_group, max_subscribers_per_topic,
}
use esp_mo_net.Bus.Shape.{Placed, Packed, IsValid, here, there, place-none, row-IsRow, place-Placed}
use esp_mo_net.Bus.Delivery.{count, subscriptions}
use esp_mo_net.Message.{sensor_max, group_sensor}

-- The slots that are taken.
abbrev pub used : List ℕ → ℕ
used [] = 0
used (s ∷ slots) = (if s == 0 then 0 else 1) + used slots

used-le : (xs : List ℕ) → used xs ≤ length xs
used-le [] = omega arith
used-le (s ∷ xs) = ground (arith, used-le xs)

used_full : (xs : List ℕ) → All (λ s. s ≢ 0) xs → used xs ≡ length xs
used_full [] h = refl
used_full (s ∷ xs) h = ground (arith, used_full xs h.1)

Placed-used : {q : ℕ} {xs ys : List ℕ} → Placed q xs ys → used xs < length xs
Placed-used (here {xs = xs} z) = ground (arith, used-le xs)
Placed-used (there nz p) = ground (arith, Placed-used p)

Packed-used : (n : ℕ) (xs : List ℕ) → Packed n xs → used xs ≡ n
Packed-used n [] p = sym p
Packed-used zero (s ∷ xs) p = ground (arith, Packed-used zero xs p.1)
Packed-used (suc n) (s ∷ xs) p = ground (arith, Packed-used n xs p.1)

Placed-count :
    {q : ℕ} {xs ys : List ℕ} (h : ℕ)
    → h ≢ 0
    → Placed q xs ys
    → count h ys ≡ count h xs + (if q == h then 1 else 0)
Placed-count h nh (here z) = ground arith
Placed-count h nh (there nz p) = omega (arith, Placed-count h nh p)

-- Either every slot is taken, or the first free one takes the handle.
place_cases :
    (q : ℕ) (xs : List ℕ)
    → ((place q xs ≡ none) × (used xs ≡ length xs))
      ⊎ ((ys : List ℕ) × (place q xs ≡ some ys)
          × (used xs < length xs)
          × ((h : ℕ) → h ≢ 0 → count h ys ≡ count h xs + (if q == h then 1 else 0)))
place_cases q xs = elim (Option-cases (place q xs)) [
  | inl full ↦ inl (full, used_full xs (place-none q xs full))
  | inr (ys, e) ↦
      inr
        (ys, e, Placed-used (place-Placed q xs e), λ h nh. Placed-count h nh (place-Placed q xs e))
]

module _ (bus : Bus) (v : IsValid bus) where
  -- On a bus of valid shape, a queue is accepted for a topic exactly when it is not NULL, the
  -- topic exists, and one of the topic's eight slots is free.
  subscribe_accepts :
      (topic queue : ℕ)
      → ((subscribe bus topic queue).0 ≡ true)
        ↔ ((queue ≢ 0) × (topic < sensor_max) × (used (row bus topic) < max_subscribers_per_topic))
  unfolding subscribe
  subscribe_accepts topic queue = elim (place_cases queue (row bus topic)) [
    | inl (full, all) ↦ ground (arith, row-IsRow bus topic)
    | inr (ys, found, free, _) ↦ ground (arith, row-IsRow bus topic)
  ]

  -- On a bus of valid shape, a queue is accepted for a group exactly when it is not NULL, the
  -- group is that of the sensors, and fewer than eight queues have been accepted.
  subscribe_group_accepts :
      (group_id queue : ℕ)
      → ((subscribe_group bus group_id queue).0 ≡ true) ↔ (
          (queue ≢ 0)
          × (group_id ≡ group_sensor)
          × (bus.group_queue_count < max_subscribers_per_group))
  unfolding subscribe_group
  subscribe_group_accepts group_id queue = elim (place_cases queue bus.group_queues) [
    | inl (full, all) ↦ ground (arith, Packed-used bus.group_queue_count bus.group_queues)
    | inr (ys, found, free, _) ↦ ground (arith, Packed-used bus.group_queue_count bus.group_queues)
  ]

  -- On a bus of valid shape, a queue that is accepted for a topic gets one more subscription to
  -- that topic, and no other subscription changes; a refused queue changes none. The handles
  -- compared are not NULL.
  pub subscribe_adds :
      (topic queue t h : ℕ)
      → h ≢ 0
      → let (accepted, bus') = subscribe bus topic queue in
        subscriptions bus' t h
        ≡ subscriptions bus t h + (if accepted && t == topic && queue == h then 1 else 0)
  unfolding subscribe
  subscribe_adds topic queue t h nz = elim (place_cases queue (row bus topic)) [
    | inl (full, all) ↦ ground (arith)
    | inr (ys, found, free, counts) ↦ ground (
      arith,
      counts h nz,
      get_or-set_self bus.subscriber_queues topic ys [],
      get_or-set_ne bus.subscriber_queues {i = topic} {j = t} ys [],
    )
  ]

  -- On a bus of valid shape, a queue that is accepted for the group gets one more subscription to
  -- every topic, and no other subscription changes; a refused queue changes none. The handles
  -- compared are not NULL.
  pub subscribe_group_adds :
      (group_id queue t h : ℕ)
      → h ≢ 0
      → let (accepted, bus') = subscribe_group bus group_id queue in
        subscriptions bus' t h
        ≡ subscriptions bus t h + (if accepted && ltb t sensor_max && queue == h then 1 else 0)
  unfolding subscribe_group
  subscribe_group_adds group_id queue t h nz = elim (place_cases queue bus.group_queues) [
    | inl (full, all) ↦ ground (arith)
    | inr (ys, found, free, counts) ↦ ground (arith, counts h nz)
  ]

  -- The group's count grows with each queue, up to eight.
  pub subscribe_group_count :
      (queue : ℕ)
      → queue ≢ 0
      → (subscribe_group bus group_sensor queue).1.group_queue_count
        ≡ min max_subscribers_per_group (bus.group_queue_count + 1)
  unfolding subscribe_group
  subscribe_group_count queue nz = elim (place_cases queue bus.group_queues) [
    | inl (full, all) ↦ ground (arith, Packed-used bus.group_queue_count bus.group_queues)
    | inr (ys, found, free, _) ↦ ground (arith, Packed-used bus.group_queue_count bus.group_queues)
  ]
