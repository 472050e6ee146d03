-- ===== src/Registry/Tests.antt =====
-- Runs of components/monet_core/src/service_registry.c, and the theorems at concrete inputs.
use mathlib.Core.Option
use text.Mathlib.TextEquality.{eq_iff}
use esp_mo_net.Base.{
  [], ◌∷◌, refl, suc, none, some, List, ◌≡◌, replicate, arith, true, min, ℕ, All, ◌+◌, ◌≤◌, inr,
  inl, Option,
}
use esp_mo_net.Message.{group_sensor}
use esp_mo_net.Rtos.{null, subscriber_ctx}
use esp_mo_net.Rtos.Simple.{simple, quiet}
use esp_mo_net.Bus.{Bus, subscribe_group, max_subscribers_per_group}
use esp_mo_net.Registry.{State, start, stop, restart, start_all}
use esp_mo_net.Service.{
  ServiceDesc, register, publisher, subscriber, ServiceEntry, fresh_entry, msg_topic_end, running,
  until_end, subscribe_topics, task_of, dispatch_task, find,
}
use esp_mo_net.Registry.Invariant.{IsValid}
use esp_mo_net.Registry.Ample.{IsAmple}
use esp_mo_net.Registry.Leak.{IsSink, restart_takes_slot}
use esp_mo_net.Registry.Histories.{Op, register_op, start_all_op, run, stop_leaks}
use esp_mo_net.Registry.Slots.{group_uses}
use esp_mo_net.Bus.Delivery.{subscriptions}
use esp_mo_net.Registry.Find.{descs}
use esp_mo_net.Registry.Startup.{start_all_runs}
use esp_mo_net.Message.{sensor_light}
use esp_mo_net.Bus.Shape
use esp_mo_net.Bus

-- A publisher with a task, and a sink of the group of all sensors.
abbrev sensor : ServiceDesc
sensor = record {
  name = some "light_sensor_service";
  task_fn = 7;
  task_name = some "light_sensor_task";
  stack_size = 4096;
  priority = 5;
  role = publisher;
  topics = none;
  sink_cb = 0;
}

abbrev uploader : ServiceDesc
uploader = record {
  name = some "http_uploader";
  task_fn = 0;
  task_name = none;
  stack_size = 4096;
  priority = 5;
  role = subscriber;
  topics = some (group_sensor ∷ msg_topic_end ∷ []);
  sink_cb = 8;
}

abbrev two_services : List ServiceEntry
two_services = fresh_entry sensor ∷ fresh_entry uploader ∷ []

abbrev full_bus : Bus
full_bus = record {
  subscriber_queues = replicate 4 (replicate 8 0);
  group_queues = replicate 8 5;
  group_queue_count = 8;
  mutex_created = true;
}

abbrev boot : State simple
boot = record { entries = two_services; bus = full_bus; world = quiet }

register_runs : register (some uploader) (register (some sensor) []) ≡ two_services
unfolding register
register_runs = refl

two_services-IsValid : IsValid two_services
two_services-IsValid = ground (arith, eq_iff "light_sensor_service" "http_uploader")

simple-IsAmple : IsAmple simple
simple-IsAmple = record {
  queue_made = λ w n. (omega arith);
  task_made = λ w t e. cc;
  room = λ w. refl;
}

-- The uploader's task is created with a queue of its own.
start_runs :
    Option.map (λ r. r.1.world.tasks) (start simple boot "http_uploader")
    ≡ some (task_of uploader dispatch_task (subscriber_ctx 10 8) ∷ [])
unfolding start until_end subscribe_topics subscribe_group
start_runs = refl

-- Both services are registered, and all are started, on a bus without queues.
abbrev boot_calls : List Op
boot_calls = register_op (some sensor) ∷ register_op (some uploader) ∷ start_all_op ∷ []

abbrev unbooted : State simple
unbooted = record { entries = []; bus = Bus.init; world = quiet }

abbrev reached : Option (State simple) → State simple
reached none = unbooted
reached (some st) = st

abbrev booted : State simple
booted = reached (run simple unbooted boot_calls)

abbrev up_with_queue : ServiceEntry
up_with_queue = record { desc = uploader; handle = 12; state = running; task_arg = null }

boots : run simple unbooted boot_calls ≡ some booted
unfolding run register find start_all start until_end subscribe_topics subscribe_group Bus.init
boots = refl

found_booted : find "http_uploader" booted.entries ≡ some (1, up_with_queue)
unfolding run register find start_all start until_end subscribe_topics subscribe_group Bus.init
found_booted = refl

stop_leaks_example :
    ((stop simple booted "http_uploader").0 ≡ true)
    × ((stop simple booted "http_uploader").1.bus ≡ booted.bus)
    × ((stop simple booted "http_uploader").1.world
        ≡ simple.task_delete booted.world up_with_queue.handle)
stop_leaks_example =
    stop_leaks simple unbooted boot_calls booted "http_uploader" 1 up_with_queue refl boots
      found_booted refl

-- A sink of the group and of the light sensor runs, with one slot of the group taken.
abbrev both_topics : List ℕ
both_topics = group_sensor ∷ sensor_light ∷ msg_topic_end ∷ []

abbrev both_up : ServiceEntry
both_up = record {
  desc = record uploader { topics = some both_topics };
  handle = 3;
  state = running;
  task_arg = null;
}

abbrev one_taken : Bus
one_taken = record {
  subscriber_queues = replicate 4 (replicate 8 0);
  group_queues = 5 ∷ replicate 7 0;
  group_queue_count = 1;
  mutex_created = true;
}

abbrev both_state : State simple
both_state = record { entries = both_up ∷ []; bus = one_taken; world = quiet }

both_up-IsValid : IsValid (both_up ∷ [])
both_up-IsValid = ground arith

abbrev both_up-IsSink : IsSink both_up
both_up-IsSink = record { role = refl; listed = both_topics; topics = refl }

one_taken-IsValid : Shape.IsValid one_taken
one_taken-IsValid = ground arith

found_both : find "http_uploader" (both_up ∷ []) ≡ some (0, both_up)
unfolding find
found_both = refl

restart_takes_slot_example :
    (st' : State simple) × (restart simple both_state "http_uploader" ≡ some (true, st'))
    × (st'.bus.group_queue_count
        ≡ min max_subscribers_per_group (1 + group_uses (until_end both_topics)))
    × ((t h : ℕ) → subscriptions one_taken t (suc h) ≤ subscriptions st'.bus t (suc h))
restart_takes_slot_example =
    restart_takes_slot simple both_state "http_uploader" 0 both_up both_up-IsSink simple-IsAmple
      both_up-IsValid one_taken-IsValid found_both refl

start_all_runs_example :
    (st' : State simple) × (start_all simple boot ≡ some st')
    × All (λ e. e.state ≡ running) st'.entries
    × (descs st'.entries ≡ sensor ∷ uploader ∷ [])
start_all_runs_example =
    start_all_runs simple simple-IsAmple boot two_services-IsValid
      (inr (omega arith), (inl (refl, λ e. cc), tt))
