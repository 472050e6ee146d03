-- ===== src/Bus.antt =====
-- components/monet_core/src/msg_bus.c: publishers and the queues that subscribe to topics.
-- The static variables are the fields of `Bus`; a queue handle is a number and 0 is NULL.
-- Every function runs under the bus's mutex, so a call is one step.
pub mod Shape
pub mod Delivery
pub mod Subscribe
pub mod Race
mod Tests
use mathlib.Core.Option
use esp_mo_net.Base.{
  [], ◌∷◌, ◌++◌, ℕ, List, replicate, true, Option, Bool, if◌then◌else◌, get_or, some, none, false,
  ltb, ◌==◌, not, take, set, ◌||◌, ◌+◌, leb,
}
use esp_mo_net.Message.{Msg, sensor_max, group_sensor}
use esp_mo_net.Rtos.{Rtos}

abbrev pub max_subscribers_per_topic : ℕ
max_subscribers_per_topic = 8

abbrev pub max_subscribers_per_group : ℕ
max_subscribers_per_group = 8

pub record Bus : Type 0 where
  pub subscriber_queues : List (List ℕ)
  pub group_queues : List ℕ
  pub group_queue_count : ℕ
  pub mutex_created : Bool

-- The static variables as the program starts.
unfoldable pub init : Bus
init = record {
  subscriber_queues = replicate sensor_max (replicate max_subscribers_per_topic 0);
  group_queues = replicate max_subscribers_per_group 0;
  group_queue_count = 0;
  mutex_created = false;
}

unfoldable pub get_group_id : ℕ → ℕ
get_group_id topic = if ltb topic sensor_max then group_sensor else 0xffff

-- The row `subscriber_queues[topic]`
abbrev pub row : Bus → ℕ → List ℕ
row bus topic = get_or bus.subscriber_queues topic []

-- The mutex is created when it is first taken.
abbrev take_mutex : Bus → Bus
take_mutex bus = record bus { mutex_created = true }

module _ (os : Rtos) where
  open os use {World, send}

  -- A pass over an array of handles: the message goes to each that is not NULL.
  unfoldable pub send_each : Msg → List ℕ → World → World
  send_each m [] w = w
  send_each m (q ∷ qs) w = send_each m qs (if q == 0 then w else send w q m)

  -- `msg_bus_publish`; the message is `none` for a NULL pointer.
  unfoldable pub publish : Bus → Option Msg → World → Bus × World
  unfolding get_group_id
  publish bus none w = (bus, w)
  publish bus (some m) w =
      let w₁ = if ltb m.topic sensor_max then send_each m (row bus m.topic) w else w in
      let w₂ =
        if get_group_id m.topic == group_sensor
        then send_each m (take bus.group_queue_count bus.group_queues) w₁
        else w₁ in
      (take_mutex bus, w₂)

-- The first NULL slot takes the queue; `none` where there is none.
unfoldable pub place : ℕ → List ℕ → Option (List ℕ)
place q [] = none
place q (s ∷ slots) = if s == 0 then some (q ∷ slots) else Option.map (◌∷◌ s) (place q slots)

abbrev pub subscribe_row : Bus → ℕ → Option (List ℕ) → Bool × Bus
subscribe_row bus topic none = (false, take_mutex bus)
subscribe_row bus topic (some slots) =
    (true, record (take_mutex bus) { subscriber_queues = set bus.subscriber_queues topic slots })

-- `msg_bus_subscribe`
unfoldable pub subscribe : Bus → ℕ → ℕ → Bool × Bus
unfolding place
subscribe bus topic queue =
    if queue == 0 || leb sensor_max topic
    then (false, bus)
    else subscribe_row bus topic (place queue (row bus topic))

abbrev pub subscribe_slots : Bus → Option (List ℕ) → Bool × Bus
subscribe_slots bus none = (false, take_mutex bus)
subscribe_slots bus (some slots) = (
  true,
  record (take_mutex bus) { group_queues = slots; group_queue_count = bus.group_queue_count + 1 },
)

-- `msg_bus_subscribe_group`
unfoldable pub subscribe_group : Bus → ℕ → ℕ → Bool × Bus
unfolding place
subscribe_group bus group_id queue =
    if not (group_id == group_sensor) || queue == 0
    then (false, bus)
    else subscribe_slots bus (place queue bus.group_queues)

-- `msg_bus_subscribe_any`
unfoldable pub subscribe_any : Bus → ℕ → Bool × Bus
unfolding subscribe_group
subscribe_any bus queue = subscribe_group bus group_sensor queue
