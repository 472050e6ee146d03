-- ===== src/Cpp/Demo.antt =====
-- components/monet_core/src_cpp/cpp_demo.cpp: a run over the layer's classes.
use mathlib.Core.Option
use esp_mo_net.Bus.{place}
use esp_mo_net.Cpp.CameraFrame.{perform, reset, release}
use esp_mo_net.Base.{
  [], ◌∷◌, none, some, zero, suc, refl, ℕ, List, Option, ◌≢◌, ◌≡◌, ◌+◌, ◌==◌, length, arith, false,
  ◌≤◌, ◌∙◌, true, ap, set, replicate,
}
use esp_mo_net.Message.{Msg, sensor_light, word_payload}
use esp_mo_net.Rtos.{Rtos}
use esp_mo_net.Bus.{send_each}
use esp_mo_net.Cpp.MessageBus.{MessageBus, LockCall}
use esp_mo_net.Cpp.Queue.{Kernel}
use esp_mo_net.Cpp.CameraFrame.{
  Frames, perform_all, adopt, move_construct, release_of, no_frames, end_scope,
}
use esp_mo_net.Cpp.MessageBus
use esp_mo_net.Cpp.Queue

-- `demo_lock_guard`
abbrev pub demo_lock_guard : ℕ → List LockCall
demo_lock_guard mutex = MessageBus.guarded mutex

abbrev received_first : Option ℕ → List ℕ → List ℕ
received_first none later = []
received_first (some x) later = x ∷ later

module _ (k : Kernel ℕ) where
  open k use {Handle}

  -- `while (q.receive(out, 0))`, with as many rounds as fuel says.
  unfoldable pub drain : ℕ → Handle → List ℕ
  drain zero q = []
  drain (suc fuel) q =
      let (received, q') = Queue.receive k q in
      let later = drain fuel q' in received_first received later

  -- `for (int i = 0; i < 3; ++i)`
  abbrev pub fill : Handle → Handle
  fill q = (Queue.send k (Queue.send k (Queue.send k q 0).1 10).1 20).1

  -- `demo_queue`: what it receives.
  unfoldable pub demo_queue : List ℕ
  demo_queue = let q = fill (Queue.construct k 4) in drain (Queue.available k q + 1) q

-- `demo_camera_frame`, with the address of its `fake_fb`
unfoldable pub demo_camera_frame : ℕ → Option Frames
demo_camera_frame fake_fb =
    Option.map end_scope
      (perform_all (adopt fake_fb ∷ move_construct 0 ∷ release_of 1 ∷ []) no_frames)

-- The message of `demo_message_bus`
abbrev pub demo_msg : Msg
demo_msg = record { topic = sensor_light; ts_ms = 0; payload = word_payload 1234; release = none }

first_subscribed :
    (mutex queue : ℕ)
    → (queue == 0) ≡ false
    → MessageBus.subscribe (MessageBus.construct mutex) sensor_light queue ≡ (
      true,
      record (MessageBus.construct mutex) {
        topic_subs =
            set (MessageBus.construct mutex).topic_subs sensor_light (queue ∷ replicate 7 0);
      },
      MessageBus.guarded mutex,
    )
unfolding MessageBus.subscribe MessageBus.construct place
first_subscribed mutex queue here = rw here refl

module _ (os : Rtos) where
  open os use {World, queue_delete}

  -- `demo_message_bus`, with the handle of its queue, which is deleted where the scope ends. What it receives is
  -- only logged.
  unfoldable pub demo_message_bus : ℕ → MessageBus → World → MessageBus × World
  demo_message_bus queue bus w =
      let (ok, bus', locks) = MessageBus.subscribe bus sensor_light queue in
      let (w', locks') = MessageBus.monet_cpp_bus_publish os bus' (some demo_msg) w in
      (bus', queue_delete w' queue)

  -- The demo deletes its queue and leaves it subscribed: the next message about light, at any later
  -- time, is sent to the deleted queue. The queue's handle is not nullptr, and the bus is new.
  pub demo_dangles :
      (mutex queue : ℕ) (w later : World) (m : Msg)
      → queue ≢ 0
      → m.topic ≡ sensor_light
      → let (bus, w') = demo_message_bus queue (MessageBus.construct mutex) w in
        (w' ≡ queue_delete (os.send w queue demo_msg) queue)
        × ((MessageBus.publish os bus m later).0 ≡ os.send later queue m)
  unfolding demo_message_bus MessageBus.subscribe MessageBus.publish MessageBus.construct
      MessageBus.monet_cpp_bus_publish MessageBus.group_of send_each
  demo_dangles mutex queue w later m nz light =
      let here : (queue == 0) ≡ false = ground (arith, nz) in
      rw (light, first_subscribed mutex queue here) (simp here (refl, refl))

module _ (k : Kernel ℕ) where
  open k use {Handle}

  -- The loop takes out everything, with as many rounds as there are items.
  drain_lem : (fuel : ℕ) (q : Handle) → length (k.items q) ≤ fuel → drain k fuel q ≡ k.items q
  unfolding drain
  drain_lem zero q enough = no_more (k.items q) enough
    where
      no_more : (ts : List ℕ) → length ts ≤ 0 → [] ≡ ts
      no_more [] few = refl
      no_more (t ∷ ts) few = absurd (omega arith)
  drain_lem (suc fuel) q enough =
      ap (λ o. received_first o (drain k fuel (k.queue_receive q).1)) (k.queue_receive_answer q)
      ∙ (by_items (drain_lem fuel (k.queue_receive q).1) (k.items q) refl)
    where
      by_items :
          (length (k.items (k.queue_receive q).1) ≤ fuel
            → drain k fuel (k.queue_receive q).1 ≡ k.items (k.queue_receive q).1)
          → (ts : List ℕ) → k.items q ≡ ts
          → received_first (Queue.first ts) (drain k fuel (k.queue_receive q).1) ≡ ts
      by_items again [] e = refl
      by_items again (t ∷ ts) e =
          let left : k.items (k.queue_receive q).1 ≡ ts =
            k.items-queue_receive q ∙ ap Queue.rest e in
          let few : length ts ≤ fuel = omega (arith, ap length e) in
          ap (◌∷◌ t) (again (rw left few) ∙ left)

  filled : k.items (fill k (Queue.construct k 4)) ≡ 0 ∷ 10 ∷ 20 ∷ []
  filled =
      simp (k.items-queue_send, k.depth-queue_send, k.items-create_static, k.depth-create_static)
        refl

  -- The items come out in the order of their sends.
  pub demo_queue_lem : demo_queue k ≡ 0 ∷ 10 ∷ 20 ∷ []
  unfolding demo_queue
  demo_queue_lem =
      drain_lem (Queue.available k (fill k (Queue.construct k 4)) + 1) _ (omega arith) ∙ filled

demo_camera_frame_lem :
    (fake_fb : ℕ)
    → fake_fb ≢ 0
    → demo_camera_frame fake_fb
      ≡ some (record { objects = []; returned = []; handed = fake_fb ∷ [] })
unfolding demo_camera_frame perform_all perform reset release no_frames end_scope
demo_camera_frame_lem fake_fb nz =
    let here : (fake_fb == 0) ≡ false = ground (arith, nz) in simp here refl
