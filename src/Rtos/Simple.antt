-- ===== src/Rtos/Simple.antt =====
-- A small operating system that keeps the laws of `Rtos`: queues as lists, handles handed out in
-- order, memory without end.
use esp_mo_net.Base.{
  [], ◌∷◌, ◌++◌, refl, suc, some, ℕ, if◌then◌else◌, List, ◌==◌, ◌≡◌, ◌≢◌, ltb, false, true, length,
  arith,
}
use esp_mo_net.Message.{Msg}
use esp_mo_net.Rtos.{Rtos, Task}

pub record SimpleWorld : Type 0 where
  pub queue : ℕ → List Msg
  pub size : ℕ → ℕ
  pub next_handle : ℕ
  pub tasks : List Task

abbrev pub offered : ℕ → List Msg → Msg → List Msg
offered n q m = if ltb (length q) n then q ++ m ∷ [] else q

abbrev simple_send : SimpleWorld → ℕ → Msg → SimpleWorld
simple_send w h m = record w {
  queue = λ j. if h == j then offered (w.size h) (w.queue h) m else w.queue j;
}

pub simple_send_self :
    (w : SimpleWorld) (h : ℕ) (m : Msg)
    → (simple_send w h m).queue h
      ≡ (if ltb (length (w.queue h)) (w.size h) then w.queue h ++ m ∷ [] else w.queue h)
simple_send_self w h m = let e : (h == h) ≡ true = ground arith in rw e

pub simple_send_ne :
    (w : SimpleWorld) (h j : ℕ) (m : Msg) → h ≢ j → (simple_send w h m).queue j ≡ w.queue j
simple_send_ne w h j m ne = let e : (h == j) ≡ false = ground arith in rw e

abbrev pub simple : Rtos
simple = record {
  World = SimpleWorld;
  pending = λ w h. w.queue h;
  capacity = λ w h. w.size h;
  send = simple_send;
  queue_create = λ w n. (
    suc w.next_handle,
    record w {
      size = λ j. if suc w.next_handle == j then n else w.size j;
      next_handle = suc w.next_handle;
    },
  );
  queue_delete = λ w h. record w { size = λ j. if h == j then 0 else w.size j };
  task_create = λ w t.
      (some (suc w.next_handle), record w { next_handle = suc w.next_handle; tasks = t ∷ w.tasks });
  task_delete = λ w h. w;
  stack_high_water_mark = λ w h. 512;
  stack_type_size = 1;
  heap_has_room = λ w. true;
  pending-send_self = simple_send_self;
  pending-send_ne = simple_send_ne;
  capacity-send = λ w h j m. refl;
}

-- Nothing is queued, and the queues with handles below ten have two places each.
abbrev pub quiet : SimpleWorld
quiet = record { queue = λ h. []; size = λ h. 2; next_handle = 9; tasks = [] }
