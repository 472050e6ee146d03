-- ===== src/Cpp/Button/Debounce.antt =====
-- What the task of components/monet_core/src_cpp/button_isr_demo.cpp makes of interrupts at any times.
use esp_mo_net.Base.{
  none, some, false, [], ◌∷◌, refl, List, ◌≡◌, ℕ, length, Bool-cases, Bool, ◌++◌, ◌+◌, ltb, true,
  Option, ◌%◌, ◌≤◌, inl, ◌&&◌, ◌∙◌, ◌^◌, inr, some, ap, arith,
}
use esp_mo_net.Cpp.Queue.{Kernel}
use esp_mo_net.Cpp.Button.{
  turn, interrupt, Worker, Event, handle, run, interrupt, button_task, start, debounce_us,
  handle_received, queue_depth, button_isr,
}
use esp_mo_net.Cpp.Queue

abbrev latest : List ℕ → ℕ
latest [] = 0
latest (t ∷ ts) = t

-- Every time is at least 200 ms behind the one before it, and the first 200 ms behind the start.
abbrev pub Apart : List ℕ → Type 0
Apart [] = Unit
Apart (t ∷ ts) = (latest ts + debounce_us ≤ t) × Apart ts

record IsPaced (st : Worker) : Type 0 where
  apart : Apart st.logged
  at_last : st.last_us ≡ latest st.logged
  numbered : st.presses ≡ length st.logged % 2 ^ 32

handle-IsPaced : (ts_us : ℕ) (st : Worker) → IsPaced st → IsPaced (handle ts_us st)
unfolding handle
handle-IsPaced ts_us st p = elim (Bool-cases (ltb ts_us (st.last_us + debounce_us))) [
  | inl bounce ↦ rw bounce p
  | inr press ↦ rw press (record {
    apart = (ground (arith, p.at_last), p.apart);
    at_last = refl;
    numbered = omega (arith, p.numbered);
  })
]

module _ (k : Kernel ℕ) where
  open k use {Handle}

  abbrev pub answered : Event → Handle → Bool
  answered (interrupt now) q = ltb (length (k.items q)) (k.depth q)
  answered turn q = true

  -- No interrupt finds the queue full.
  unfoldable pub is_lossless : List Event → Handle × Worker → Bool
  unfolding run
  is_lossless [] s = true
  is_lossless (event ∷ events) s = answered event s.0 && is_lossless events (run k (event ∷ []) s)

  abbrev pub times : List Event → List ℕ
  times [] = []
  times (interrupt now ∷ events) = now ∷ times events
  times (turn ∷ events) = times events

  -- Every press handled as it comes.
  abbrev pub handle_all : List ℕ → Worker → Worker
  handle_all [] st = st
  handle_all (t ∷ ts) st = handle_all ts (handle t st)

  handle_all-append :
      (ts us : List ℕ) (st : Worker) → handle_all (ts ++ us) st ≡ handle_all us (handle_all ts st)
  handle_all-append [] us st = refl
  handle_all-append (t ∷ ts) us st = handle_all-append ts us (handle t st)

  run-IsPaced :
      (events : List Event) (q : Handle) (st : Worker)
      → IsPaced st
      → IsPaced (run k events (q, st)).1
  unfolding run
  run-IsPaced [] q st p = p
  run-IsPaced (interrupt now ∷ events) q st p = run-IsPaced events _ st p
  run-IsPaced (turn ∷ events) q st p =
      run-IsPaced events _ _ (received-IsPaced (k.queue_receive q).0)
    where
      received-IsPaced : (received : Option ℕ) → IsPaced (handle_received k received st)
      received-IsPaced none = p
      received-IsPaced (some t) = handle-IsPaced t st p

  -- What is in the queue is handled next.
  handle_next :
      (q : Handle) (st : Worker)
      → handle_all (k.items (button_task k (q, st)).0) (button_task k (q, st)).1
        ≡ handle_all (k.items q) st
  handle_next q st = rw (k.queue_receive_answer q, k.items-queue_receive q) (by_items (k.items q))
    where
      by_items :
          (ts : List ℕ)
          → handle_all (Queue.rest ts) (handle_received k (Queue.first ts) st) ≡ handle_all ts st
      by_items [] = refl
      by_items (t ∷ ts) = refl

  run_agrees :
      (events : List Event) (q : Handle) (st : Worker)
      → is_lossless events (q, st) ≡ true
      → handle_all (k.items (run k events (q, st)).0) (run k events (q, st)).1
        ≡ handle_all (times events) (handle_all (k.items q) st)
  unfolding is_lossless run
  run_agrees [] q st whole = refl
  run_agrees (interrupt now ∷ events) q st whole =
      elim (Bool-cases (ltb (length (k.items q)) (k.depth q))) [
        | inl room ↦
            let put : k.items (button_isr k now q) ≡ k.items q ++ now ∷ [] =
              k.items-queue_send q now ∙ rw room refl in
            run_agrees events _ st (rw room at whole)
            ∙ ap (handle_all (times events))
                (ap (λ ts. handle_all ts st) put ∙ handle_all-append (k.items q) (now ∷ []) st)
        | inr full ↦ (let no : false ≡ true = rw full at whole in absurd (cc))
      ]
  run_agrees (turn ∷ events) q st whole =
      run_agrees events _ _ whole ∙ ap (handle_all (times events)) (handle_next q st)

  -- However interrupts and turns of the task are mixed, any two logged presses are at least 200 ms
  -- apart, the first one is at least 200 ms behind the start, and they are numbered without a gap,
  -- modulo 2^32.
  pub presses-Apart :
      (events : List Event) (n : ℕ)
      → let (q, st) = run k events (Queue.construct k n, start) in
        Apart st.logged × (st.presses ≡ length st.logged % 2 ^ 32)
  unfolding start
  presses-Apart events n =
      let p =
        run-IsPaced events (Queue.construct k n) start
          (record { apart = tt; at_last = refl; numbered = refl }) in
      (p.apart, p.numbered)

  -- If no interrupt finds the queue full, then however interrupts and turns of the task are mixed,
  -- the task is, once it has handled what is in the queue, where handling every press at its time
  -- leaves it.
  pub schedules_agree :
      (events : List Event)
      → is_lossless events (Queue.construct k queue_depth, start) ≡ true
      → let (q, st) = run k events (Queue.construct k queue_depth, start) in
        handle_all (k.items q) st ≡ handle_all (times events) start
  schedules_agree events whole =
      run_agrees events (Queue.construct k queue_depth) start whole
      ∙ ap (λ ts. handle_all (times events) (handle_all ts start))
          (k.items-create_static queue_depth)
