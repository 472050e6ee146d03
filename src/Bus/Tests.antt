-- ===== src/Bus/Tests.antt =====
-- Runs of components/monet_core/src/msg_bus.c, and the theorems at concrete inputs.
use esp_mo_net.Bus.Race
use esp_mo_net.Bus.Race.{
  Place, outside, inside, creating, BothFound, InsideWith, taking, here, Shared, Reach, Exclusive,
  put, later, later-Exclusive, race, move, find_mutex, acquire,
}
use esp_mo_net.Base.{[], ◌∷◌, refl, none, some, replicate, arith, ◌≡◌, true, false, ℕ, ◌≢◌}
use esp_mo_net.Message.{Msg, sensor_light, word_payload, group_sensor}
use esp_mo_net.Rtos.Simple.{simple, quiet}
use esp_mo_net.Bus.{Bus, init, publish, subscribe, subscribe_group, subscribe_any, send_each}
use esp_mo_net.Bus.Shape.{IsValid}
use esp_mo_net.Bus.Delivery.{publish_delivers}

-- Queue 5 listens to the light sensor and, as queue 6 does, to the group.
abbrev wired : Bus
wired = record {
  subscriber_queues = replicate 8 0 ∷ (5 ∷ replicate 7 0) ∷ replicate 8 0 ∷ replicate 8 0 ∷ [];
  group_queues = 5 ∷ 6 ∷ replicate 6 0;
  group_queue_count = 2;
  mutex_created = true;
}

wired-IsValid : IsValid wired
wired-IsValid = ground arith

abbrev light : Msg
light = record { topic = sensor_light; ts_ms = 7; payload = word_payload 300; release = none }

wired_by_calls :
    (subscribe_any (subscribe_group (subscribe init sensor_light 5).1 group_sensor 5).1 6).1 ≡ wired
unfolding init subscribe subscribe_any
wired_by_calls = refl

publish_runs :
    ((publish simple wired (some light) quiet).1.queue 5 ≡ light ∷ light ∷ [])
    × ((publish simple wired (some light) quiet).1.queue 6 ≡ light ∷ [])
    × ((publish simple wired (some light) quiet).1.queue 7 ≡ [])
unfolding publish send_each
publish_runs = (refl, refl, refl)

publish_delivers_example : (publish simple wired (some light) quiet).1.queue 6 ≡ light ∷ []
publish_delivers_example = publish_delivers simple wired light quiet 6 wired-IsValid (omega arith)

-- Task 3 has called the bus alone; then task 5 enters.
abbrev created : Shared
created = record { bus_mutex = 1; next_handle = 2; taken = λ h. false; place = λ t. outside }

abbrev entered : Shared
entered = record created {
  taken = put (λ h. false) 1 true;
  place = put (move created 5 taking).place 5 Place.inside;
}

entered_by_steps : Reach created entered
entered_by_steps = later 5 (later 5 here (find_mutex refl (omega arith))) (acquire refl refl)

later-Exclusive_example : Exclusive entered
later-Exclusive_example = later-Exclusive {s = created} (omega arith) (λ t. refl) entered_by_steps

race_example :
    (s₁ : Shared) × (s₂ : Shared) × (s₃ : Shared) × (h₁ : ℕ) × (h₂ : ℕ) × Reach Race.boot s₁
    × BothFound 3 5 s₁
    × Reach s₁ s₂
    × InsideWith 3 h₁ s₂
    × (s₂.place 5 ≡ creating)
    × Reach s₂ s₃
    × InsideWith 5 h₂ s₃
    × (s₃.place 3 ≡ inside)
    × (s₃.taken h₁ ≡ true)
    × (h₁ ≢ h₂)
race_example = race 3 5 (omega arith)
