-- ===== src/Bus/Delivery.antt =====
-- What `msg_bus_publish` (components/monet_core/src/msg_bus.c) puts into which queue.
use esp_mo_net.Base.{
  [], ◌∷◌, ◌++◌, refl, zero, suc, ℕ, List, ◌-◌, ◌≡◌, if◌then◌else◌, ◌+◌, ltb, length, replicate,
  ◌==◌, min, arith, Bool-cases, sym, ap, inl, length-append, inr, length-replicate, replicate-add,
  ◌∙◌, ◌≢◌, false, take, some,
}
use mathlib.Core.List.{append-nil, append_assoc}
use esp_mo_net.Rtos.{Rtos}
use esp_mo_net.Bus.{Bus, row, send_each, publish, get_group_id}
use esp_mo_net.Message.{Msg, sensor_max}
use esp_mo_net.Bus.Shape.{Packed, IsValid}

-- How often a handle stands in an array.
abbrev pub count : ℕ → List ℕ → ℕ
count h [] = 0
count h (s ∷ slots) = (if s == h then 1 else 0) + count h slots

-- How many subscriptions of a queue a message on a topic goes through.
abbrev pub subscriptions : Bus → ℕ → ℕ → ℕ
subscriptions bus topic h =
    if ltb topic sensor_max then count h (row bus topic) + count h bus.group_queues else 0

-- The free places of a queue.
module _ (os : Rtos) where
  open os use {World, pending, capacity, send}

  abbrev pub room : World → ℕ → ℕ
  room w h = capacity w h - length (pending w h)

  -- As many copies are in the queue as were offered and had room.
  abbrev Delivered : Msg → ℕ → ℕ → World → World → Type 0
  Delivered m h n w w' =
      (pending w' h ≡ pending w h ++ replicate (min n (room w h)) m)
      × (capacity w' h ≡ capacity w h)

  Delivered-zero : (m : Msg) (h : ℕ) (w : World) → Delivered m h 0 w w
  Delivered-zero m h w =
      let e : min 0 (room w h) ≡ 0 = omega arith in (rw e (sym (append-nil (pending w h))), refl)

  Delivered-trans :
      (m : Msg) (h a b : ℕ) (w w₁ w₂ : World)
      → Delivered m h a w w₁
      → Delivered m h b w₁ w₂
      → Delivered m h (a + b) w w₂
  Delivered-trans m h a b w w₁ w₂ d e =
      let sum : min (a + b) (room w h) ≡ min a (room w h) + min b (room w₁ h) = omega (
        arith,
        ap length d.0,
        length-append (pending w h) (replicate (min a (room w h)) m),
        length-replicate (min a (room w h)) m,
        d.1,
      ) in
      (
        rw
            (
              sum,
              replicate-add (min a (room w h)) (min b (room w₁ h)) m,
              ← append_assoc (pending w h),
              ← d.0,
            )
            e.0,
        e.1 ∙ d.1,
      )

  send-Delivered :
      (m : Msg) (h q : ℕ) (w : World) → Delivered m h (if q == h then 1 else 0) w (send w q m)
  send-Delivered m h q w = elim (Bool-cases (q == h)) [
    | inl same ↦ rw same (grind (arith, os.pending-send_self, os.capacity-send, append-nil))
    | inr other ↦ rw other (
        let e : min 0 (room w h) ≡ 0 = omega arith in
        (
          rw e (os.pending-send_ne w q h m (ground arith) ∙ sym (append-nil (pending w h))),
          os.capacity-send w q h m,
        ))
  ]

  slot-Delivered :
      (m : Msg) (h q : ℕ) (w : World)
      → h ≢ 0
      → Delivered m h (if q == h then 1 else 0) w (if q == 0 then w else send w q m)
  slot-Delivered m h q w nz = elim (Bool-cases (q == 0)) [
    | inl null ↦
        let miss : (q == h) ≡ false = ground arith in rw (null, miss) (Delivered-zero m h w)
    | inr handle ↦ rw handle (send-Delivered m h q w)
  ]

  send_each-Delivered :
      (m : Msg) (h : ℕ) (qs : List ℕ) (w : World)
      → h ≢ 0
      → Delivered m h (count h qs) w (send_each os m qs w)
  unfolding send_each
  send_each-Delivered m h [] w nz = Delivered-zero m h w
  send_each-Delivered m h (q ∷ qs) w nz =
      Delivered-trans m h (if q == h then 1 else 0) (count h qs) w
        (if q == 0 then w else send w q m) _ (slot-Delivered m h q w nz)
        (send_each-Delivered m h qs _ nz)

  count-Packed :
      (h n : ℕ) (slots : List ℕ) → h ≢ 0 → Packed n slots → count h (take n slots) ≡ count h slots
  count-Packed h zero [] nz p = refl
  count-Packed h (suc n) [] nz p = refl
  count-Packed h zero (s ∷ slots) nz p = ground (arith, count-Packed h zero slots nz p.1)
  count-Packed h (suc n) (s ∷ slots) nz p = omega (arith, count-Packed h n slots nz p.1)

  -- On a bus of valid shape, a published message is appended to a queue once for each subscription
  -- of the queue to the topic or to the group, as far as the queue has room, and the queue is
  -- otherwise as it was; the queue's handle is not NULL.
  pub publish_delivers :
      (bus : Bus) (m : Msg) (w : World) (h : ℕ)
      → IsValid bus
      → h ≢ 0
      → pending (publish os bus (some m) w).1 h
        ≡ pending w h ++ replicate (min (subscriptions bus m.topic h) (room w h)) m
  unfolding publish
  publish_delivers bus m w h v nz = elim (Bool-cases (ltb m.topic sensor_max)) [
    | inl sensor ↦
        rw (sensor, get_group_id)
          (Delivered-trans m h (count h (row bus m.topic)) (count h bus.group_queues) w
            (send_each os m (row bus m.topic) w) _ (send_each-Delivered m h (row bus m.topic) w nz)
            (rw (← count-Packed h bus.group_queue_count bus.group_queues nz v.packed) (
              send_each-Delivered m h (take bus.group_queue_count bus.group_queues)
                (send_each os m (row bus m.topic) w) nz))).0
    | inr none_such ↦ rw (none_such) (Delivered-zero m h w).0
  ]
