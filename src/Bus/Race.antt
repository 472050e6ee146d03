-- ===== src/Bus/Race.antt =====
-- The creation of the bus's mutex in components/monet_core/src/msg_bus.c: the calls of several tasks step by
-- step, as the scheduler may interleave them. Every function of the bus that takes the mutex does so in these
-- steps; what it does with the arrays is the step `inside`.
use esp_mo_net.Base.{refl, suc, true, false, ℕ, Bool, if◌then◌else◌, ◌≡◌, ◌≢◌, ◌==◌, arith}

-- Where a task is: outside; past the test that found NULL; about to take the mutex; in possession of it.
pub data Place : Type 0 where
  outside creating taking inside : Place

-- `bus_mutex`, the handle of the next mutex, which mutexes are taken, and the tasks.
pub record Shared : Type 0 where
  pub bus_mutex : ℕ
  pub next_handle : ℕ
  pub taken : ℕ → Bool
  pub place : ℕ → Place

-- A family with one place changed.
abbrev pub put {ℓ} : {A : Type ℓ} → (ℕ → A) → ℕ → A → ℕ → A
put f i a j = if i == j then a else f j

abbrev pub move : Shared → ℕ → Place → Shared
move s t p = record s { place = put s.place t p }

-- A step of the task `t`.
pub data Step (t : ℕ) : Shared → Shared → Type 0 where
  find_null : {s : Shared} → s.place t ≡ outside → s.bus_mutex ≡ 0 → Step t s (move s t creating)
  find_mutex : {s : Shared} → s.place t ≡ outside → s.bus_mutex ≢ 0 → Step t s (move s t taking)
  create :
      {s : Shared}
      → s.place t ≡ creating
      → Step t s (record s {
        bus_mutex = s.next_handle;
        next_handle = suc s.next_handle;
        place = put s.place t taking;
      })
  acquire :
      {s : Shared}
      → s.place t ≡ taking
      → s.taken s.bus_mutex ≡ false
      → Step t s (record s { taken = put s.taken s.bus_mutex true; place = put s.place t inside })
  give_back :
      {s : Shared}
      → s.place t ≡ inside
      → Step t s (record s { taken = put s.taken s.bus_mutex false; place = put s.place t outside })

-- What the tasks can reach.
pub data Reach (s : Shared) : Shared → Type 0 where
  here : Reach s s
  later : {u v : Shared} (t : ℕ) → Reach s u → Step t u v → Reach s v

-- No two tasks are in possession of the mutex.
abbrev pub Exclusive : Shared → Type 0
Exclusive s = (i j : ℕ) → s.place i ≡ inside → s.place j ≡ inside → i ≡ j

-- The program's start: no mutex, and every task outside.
abbrev pub boot : Shared
boot = record { bus_mutex = 0; next_handle = 1; taken = λ h. false; place = λ t. outside }

-- Holds while nobody creates a mutex.
record Inv (s : Shared) : Type 0 where
  exists : s.bus_mutex ≢ 0
  none_creates : (t : ℕ) → s.place t ≢ creating
  holds : (t : ℕ) → s.place t ≡ inside → s.taken s.bus_mutex ≡ true
  exclusive : Exclusive s

Step-Inv : (t : ℕ) {s u : Shared} → Step t s u → Inv s → Inv u
Step-Inv t {s} (find_null at null') inv = absurd (inv.exists null')
Step-Inv t {s} (find_mutex at set) inv = record {
  exists = inv.exists;
  none_creates = λ i e. (ground (arith, inv.none_creates i));
  holds = λ i e. (ground (arith, inv.holds i));
  exclusive = λ i j ei ej. (ground (arith, inv.exclusive i j));
}
Step-Inv t {s} (create at) inv = absurd (inv.none_creates t at)
Step-Inv t {s} (acquire at free) inv = record {
  exists = inv.exists;
  none_creates = λ i e. (ground (arith, inv.none_creates i));
  holds = λ i e. (ground arith);
  exclusive = λ i j ei ej. (ground (arith, inv.holds i, inv.holds j));
}
Step-Inv t {s} (give_back at) inv = record {
  exists = inv.exists;
  none_creates = λ i e. (ground (arith, inv.none_creates i));
  holds = λ i e. (ground (arith, inv.exclusive t i));
  exclusive = λ i j ei ej. (ground (arith, inv.exclusive i j));
}

Reach-Inv : {s u : Shared} → Reach s u → Inv s → Inv u
Reach-Inv here inv = inv
Reach-Inv (later t r step) inv = Step-Inv t step (Reach-Inv r inv)

-- Once the mutex exists and every task is outside, no two tasks are ever in possession of it,
-- however their steps are interleaved.
pub later-Exclusive :
    {s u : Shared} → s.bus_mutex ≢ 0 → ((t : ℕ) → s.place t ≡ outside) → Reach s u → Exclusive u
later-Exclusive exists quiet r =
    (Reach-Inv r (record {
      exists = exists;
      none_creates = λ t e. cc (quiet t);
      holds = λ t e. absurd (cc (quiet t));
      exclusive = λ i j ei ej. absurd (cc (quiet i));
    })).exclusive

put_self : {A : Type 0} (f : ℕ → A) (i : ℕ) (a : A) → put f i a i ≡ a
put_self f i a = let e : (i == i) ≡ true = ground arith in rw e

put-ne : {A : Type 0} (f : ℕ → A) (i j : ℕ) (a : A) → i ≢ j → put f i a j ≡ f j
put-ne f i j a h = let e : (i == j) ≡ false = ground arith in rw e

-- The states of the race: both find NULL, one creates a mutex and takes it, and so does the other.
abbrev both_found : ℕ → ℕ → Shared
both_found i j = move (move boot i creating) j creating

abbrev first_created : ℕ → ℕ → Shared
first_created i j = record {
  bus_mutex = 1;
  next_handle = 2;
  taken = λ h. false;
  place = put (both_found i j).place i taking;
}

abbrev first_inside : ℕ → ℕ → Shared
first_inside i j = record {
  bus_mutex = 1;
  next_handle = 2;
  taken = put (λ h. false) 1 true;
  place = put (first_created i j).place i inside;
}

abbrev second_created : ℕ → ℕ → Shared
second_created i j = record {
  bus_mutex = 2;
  next_handle = 3;
  taken = put (λ h. false) 1 true;
  place = put (first_inside i j).place j taking;
}

abbrev both_inside : ℕ → ℕ → Shared
both_inside i j = record {
  bus_mutex = 2;
  next_handle = 3;
  taken = put (put (λ h. false) 1 true) 2 true;
  place = put (second_created i j).place j inside;
}

-- The run of the race in three parts.
found-Reach : (i j : ℕ) → i ≢ j → Reach boot (both_found i j)
found-Reach i j apart =
    later j (later i here (find_null refl refl))
      (find_null (put-ne boot.place i j creating apart) refl)

first-Reach : (i j : ℕ) → i ≢ j → Reach (both_found i j) (first_inside i j)
first-Reach i j apart =
    let created : Reach (both_found i j) (first_created i j) =
      later i here (create (ground arith)) in
    later i created (acquire (ground arith) refl)

second-Reach : (i j : ℕ) → i ≢ j → Reach (first_inside i j) (both_inside i j)
second-Reach i j apart =
    let created : Reach (first_inside i j) (second_created i j) =
      later j here (create (ground arith)) in
    later j created (acquire (ground arith) refl)

-- Both tasks have found that there is no mutex, and neither has made one.
abbrev pub BothFound : ℕ → ℕ → Shared → Type 0
BothFound i j s = (s.bus_mutex ≡ 0) × (s.place i ≡ creating) × (s.place j ≡ creating)

-- The task is inside, with the mutex `h` taken, and `h` is the bus's.
abbrev pub InsideWith : ℕ → ℕ → Shared → Type 0
InsideWith t h s = (s.place t ≡ inside) × (s.bus_mutex ≡ h) × (s.taken h ≡ true)

-- From the program's start, any two tasks can both find that there is no mutex, and then each of
-- them creates one and takes it, so that both are inside at once, with two different mutexes, both
-- taken; the second handle has replaced the first.
pub race :
    (i j : ℕ)
    → i ≢ j
    → (s₁ : Shared) × (s₂ : Shared) × (s₃ : Shared) × (h₁ : ℕ) × (h₂ : ℕ) × Reach boot s₁
      × BothFound i j s₁
      × Reach s₁ s₂
      × InsideWith i h₁ s₂
      × (s₂.place j ≡ creating)
      × Reach s₂ s₃
      × InsideWith j h₂ s₃
      × (s₃.place i ≡ inside)
      × (s₃.taken h₁ ≡ true)
      × (h₁ ≢ h₂)
race i j apart = (
  both_found i j,
  first_inside i j,
  both_inside i j,
  1,
  2,
  found-Reach i j apart,
  (refl, ground arith, ground arith),
  first-Reach i j apart,
  (ground arith, refl, ground arith),
  ground arith,
  second-Reach i j apart,
  (ground arith, refl, ground arith),
  ground arith,
  ground arith,
  omega arith,
)
