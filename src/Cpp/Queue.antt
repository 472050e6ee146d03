-- ===== src/Cpp/Queue.antt =====
-- components/monet_core/include_cpp/monet_core_cpp/Queue.hpp: a queue of values of one type. FreeRTOS below it is a
-- parameter, with what its manual documents as laws.
use esp_mo_net.Base.{
  refl, [], ◌∷◌, ◌++◌, List, ℕ, Bool, Option, ltb, none, ◌≡◌, length, some, if◌then◌else◌,
}

abbrev pub first {ℓ} : {A : Type ℓ} → List A → Option A
first [] = none
first (x ∷ xs) = some x

abbrev pub rest {ℓ} : {A : Type ℓ} → List A → List A
rest [] = []
rest (x ∷ xs) = xs

-- The kernel's queue of `T`. `send` stands for `xQueueSend` without a wait and for `xQueueSendFromISR`,
-- `receive` for `xQueueReceive`: it gives `none` where it would wait.
pub record Kernel (T : Type 0) : Type 1 where
  pub Handle : Type 0
  pub items : Handle → List T
  pub depth : Handle → ℕ
  pub create_static : ℕ → Handle
  pub queue_send : Handle → T → Bool × Handle
  pub queue_receive : Handle → Option T × Handle
  pub items-create_static : (n : ℕ) → items (create_static n) ≡ []
  pub depth-create_static : (n : ℕ) → depth (create_static n) ≡ n
  pub queue_send_answer :
      (q : Handle) (item : T) → (queue_send q item).0 ≡ ltb (length (items q)) (depth q)
  pub items-queue_send :
      (q : Handle) (item : T)
      → items (queue_send q item).1
        ≡ (if ltb (length (items q)) (depth q) then items q ++ item ∷ [] else items q)
  pub depth-queue_send : (q : Handle) (item : T) → depth (queue_send q item).1 ≡ depth q
  pub queue_receive_answer : (q : Handle) → (queue_receive q).0 ≡ first (items q)
  pub items-queue_receive : (q : Handle) → items (queue_receive q).1 ≡ rest (items q)
  pub depth-queue_receive : (q : Handle) → depth (queue_receive q).1 ≡ depth q

module _ {T : Type 0} (k : Kernel T) where
  open k use {Handle}

  -- The constructor; the storage is part of the object, so the handle is never nullptr.
  abbrev pub construct : ℕ → Handle
  construct n = k.create_static n

  abbrev pub send : Handle → T → Bool × Handle
  send q item = k.queue_send q item

  abbrev pub send_from_isr : Handle → T → Bool × Handle
  send_from_isr q item = k.queue_send q item

  abbrev pub receive : Handle → Option T × Handle
  receive q = k.queue_receive q

  abbrev pub available : Handle → ℕ
  available q = length (k.items q)

-- A queue as a list.
pub record Fifo (T : Type 0) : Type 0 where
  pub held : List T
  pub room : ℕ

abbrev pub fifo : (T : Type 0) → Kernel T
fifo T = record {
  Handle = Fifo T;
  items = λ q. q.held;
  depth = λ q. q.room;
  create_static = λ n. record { held = []; room = n };
  queue_send = λ q item. (
    ltb (length q.held) q.room,
    record q { held = if ltb (length q.held) q.room then q.held ++ item ∷ [] else q.held },
  );
  queue_receive = λ q. (first q.held, record q { held = rest q.held });
  items-create_static = λ n. refl;
  depth-create_static = λ n. refl;
  queue_send_answer = λ q item. refl;
  items-queue_send = λ q item. refl;
  depth-queue_send = λ q item. refl;
  queue_receive_answer = λ q. refl;
  items-queue_receive = λ q. refl;
  depth-queue_receive = λ q. refl;
}
