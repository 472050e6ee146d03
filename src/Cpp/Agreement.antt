-- ===== src/Cpp/Agreement.antt =====
-- Both buses, components/monet_core/src/msg_bus.c and components/monet_core/src_cpp/MessageBus.cpp, side by side.
use esp_mo_net.Base.{
  zero, suc, [], ◌∷◌, refl, Option, ℕ, Bool, List, ◌≡◌, ◌<◌, length, some, Bool-cases, set, ◌≤◌,
  ◌==◌, not, arith, none, ◌||◌, ◌∷◌, leb, inl, suc, inr, false, ap, ◌∙◌, sym,
}
use esp_mo_net.Message.{Msg, group_sensor, sensor_max}
use esp_mo_net.Rtos.{Rtos}
use esp_mo_net.Bus.{Bus, place}
use esp_mo_net.Bus.Shape.{IsValid, Packed, init-IsValid, subscribe-IsValid, subscribe_group-IsValid}
use esp_mo_net.Cpp.MessageBus.{MessageBus}
use esp_mo_net.Bus
use esp_mo_net.Cpp.MessageBus

-- A call of either bus.
pub data Call : Type 0 where
  publish : Option Msg → Call
  subscribe subscribe_group : ℕ → ℕ → Call

-- The C++ bus with the contents of the C one.
abbrev pub as_cpp : ℕ → Bus → MessageBus
as_cpp mutex bus = record {
  mutex = mutex;
  topic_subs = bus.subscriber_queues;
  group_subs = bus.group_queues;
  group_count = bus.group_queue_count;
}

-- In an array that is filled from the front, the first free slot is the one behind the filled ones.
place-Packed :
    (q n : ℕ) (slots : List ℕ)
    → Packed n slots
    → n < length slots
    → place q slots ≡ some (set slots n q)
unfolding place
place-Packed q n [] packed room = absurd (omega arith)
place-Packed q zero (s ∷ slots) packed room = rw packed.0 refl
place-Packed q (suc n) (s ∷ slots) packed room =
    let taken : (s == 0) ≡ false = ground (arith, packed.0) in
    rw (taken, place-Packed q n slots packed.1 (omega arith)) refl

place_full : (q n : ℕ) (slots : List ℕ) → Packed n slots → length slots ≤ n → place q slots ≡ none
unfolding place
place_full q n [] packed full = refl
place_full q zero (s ∷ slots) packed full = absurd (omega arith)
place_full q (suc n) (s ∷ slots) packed full =
    let taken : (s == 0) ≡ false = ground (arith, packed.0) in
    rw (taken, place_full q n slots packed.1 (omega arith)) refl

-- The answer and the bus, without the guard's calls.
abbrev pub result : MessageBus.Answer → Bool × MessageBus
result r = (r.0, r.1)

abbrev pub as_result : ℕ → Bool × Bus → Bool × MessageBus
as_result mutex r = (r.0, as_cpp mutex r.1)

agree_subscribe :
    (mutex : ℕ) (bus : Bus) (topic queue : ℕ)
    → result (MessageBus.subscribe (as_cpp mutex bus) topic queue)
      ≡ as_result mutex (Bus.subscribe bus topic queue)
unfolding MessageBus.subscribe Bus.subscribe
agree_subscribe mutex bus topic queue = elim (Bool-cases (queue == 0 || leb sensor_max topic)) [
  | inl bad ↦ rw bad refl
  | inr good ↦ rw good (by_place (place queue (Bus.row bus topic)))
]
  where
    by_place :
        (o : Option (List ℕ))
        → result (MessageBus.in_slot (as_cpp mutex bus) topic o)
          ≡ as_result mutex (Bus.subscribe_row bus topic o)
    by_place none = refl
    by_place (some slots) = refl

agree_subscribe_group :
    (mutex : ℕ) (bus : Bus) (group_id queue : ℕ)
    → IsValid bus
    → result (MessageBus.subscribe_group (as_cpp mutex bus) group_id queue)
      ≡ as_result mutex (Bus.subscribe_group bus group_id queue)
unfolding MessageBus.subscribe_group Bus.subscribe_group
agree_subscribe_group mutex bus group_id queue valid =
    elim (Bool-cases (not (group_id == group_sensor) || queue == 0)) [
      | inl bad ↦ rw bad refl
      | inr good ↦ elim (Bool-cases (leb 8 bus.group_queue_count)) [
        | inl full ↦
            rw
              (
                good,
                full,
                place_full queue bus.group_queue_count bus.group_queues valid.packed
                    (ground (arith, valid.group)),
              )
              refl
        | inr room ↦
            rw
              (
                good,
                room,
                place-Packed queue bus.group_queue_count bus.group_queues valid.packed
                    (ground (arith, valid.group)),
              )
              refl
      ]
    ]

module _ (os : Rtos) where
  open os use {World}

  agree_publish :
      (mutex : ℕ) (bus : Bus) (m : Option Msg) (w : World)
      → (MessageBus.monet_cpp_bus_publish os (as_cpp mutex bus) m w).0 ≡ (Bus.publish os bus m w).1
  unfolding MessageBus.monet_cpp_bus_publish MessageBus.publish MessageBus.group_of Bus.publish
      Bus.get_group_id
  agree_publish mutex bus none w = refl
  agree_publish mutex bus (some m) w = refl

  abbrev answered : Bool → List Bool × World → List Bool × World
  answered ok (answers, w) = (ok ∷ answers, w)

  publish_keeps :
      (mutex : ℕ) (bus : Bus) (m : Option Msg) (w : World)
      → IsValid bus
      → (as_cpp mutex (Bus.publish os bus m w).0 ≡ as_cpp mutex bus)
        × IsValid (Bus.publish os bus m w).0
  unfolding Bus.publish
  publish_keeps mutex bus none w valid = (refl, valid)
  publish_keeps mutex bus (some m) w valid = (
    refl,
    record {
      topics = valid.topics;
      slots = valid.slots;
      group = valid.group;
      packed = valid.packed;
    },
  )

  -- What a history of calls answers and does, with either bus.
  unfoldable pub run_c : List Call → Bus → World → List Bool × World
  run_c [] bus w = ([], w)
  run_c (publish m ∷ calls) bus w = let (bus', w') = Bus.publish os bus m w in run_c calls bus' w'
  run_c (subscribe topic queue ∷ calls) bus w =
      let (ok, bus') = Bus.subscribe bus topic queue in answered ok (run_c calls bus' w)
  run_c (subscribe_group group_id queue ∷ calls) bus w =
      let (ok, bus') = Bus.subscribe_group bus group_id queue in answered ok (run_c calls bus' w)

  unfoldable pub run_cpp : List Call → MessageBus → World → List Bool × World
  run_cpp [] bus w = ([], w)
  run_cpp (publish m ∷ calls) bus w =
      run_cpp calls bus (MessageBus.monet_cpp_bus_publish os bus m w).0
  run_cpp (subscribe topic queue ∷ calls) bus w =
      let (ok, bus', locks) = MessageBus.subscribe bus topic queue in
      answered ok (run_cpp calls bus' w)
  run_cpp (subscribe_group group_id queue ∷ calls) bus w =
      let (ok, bus', locks) = MessageBus.subscribe_group bus group_id queue in
      answered ok (run_cpp calls bus' w)

  run_agree :
      (mutex : ℕ) (calls : List Call) (bus : Bus) (w : World)
      → IsValid bus
      → run_cpp calls (as_cpp mutex bus) w ≡ run_c calls bus w
  unfolding run_c run_cpp
  run_agree mutex [] bus w valid = refl
  run_agree mutex (publish m ∷ calls) bus w valid =
      let (bus', w') = Bus.publish os bus m w in
      let (same, valid') = publish_keeps mutex bus m w valid in
      ap (run_cpp calls (as_cpp mutex bus)) (agree_publish mutex bus m w)
      ∙ ap (λ b. run_cpp calls b w') (sym same)
      ∙ run_agree mutex calls bus' w' valid'
  run_agree mutex (subscribe topic queue ∷ calls) bus w valid =
      let (ok, bus') = Bus.subscribe bus topic queue in
      ap (λ r. answered r.0 (run_cpp calls r.1 w)) (agree_subscribe mutex bus topic queue)
      ∙ ap (answered ok) (run_agree mutex calls bus' w (subscribe-IsValid bus topic queue valid))
  run_agree mutex (subscribe_group group_id queue ∷ calls) bus w valid =
      let (ok, bus') = Bus.subscribe_group bus group_id queue in
      ap (λ r. answered r.0 (run_cpp calls r.1 w))
        (agree_subscribe_group mutex bus group_id queue valid)
      ∙ ap (answered ok)
          (run_agree mutex calls bus' w (subscribe_group-IsValid bus group_id queue valid))

  -- From the start, no history of publications and subscriptions, to topics and to the group,
  -- tells the C++ bus from the C one: every subscription is answered alike, and the same messages
  -- are in the same queues.
  pub buses_agree :
      (mutex : ℕ) (calls : List Call) (w : World)
      → run_cpp calls (MessageBus.construct mutex) w ≡ run_c calls Bus.init w
  unfolding MessageBus.construct Bus.init
  buses_agree mutex calls w = run_agree mutex calls Bus.init w init-IsValid
