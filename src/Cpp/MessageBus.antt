-- ===== src/Cpp/MessageBus.antt =====
-- components/monet_core/src_cpp/MessageBus.cpp, with the guard of its mutex in
-- components/monet_core/include_cpp/monet_core_cpp/LockGuard.hpp.
use esp_mo_net.Base.{
  [], ◌∷◌, ◌++◌, ℕ, List, Bool, Option, none, some, true, false, if◌then◌else◌, replicate, set,
  ◌==◌, ltb, not, get_or, ◌||◌, take, leb, ◌+◌,
}
use esp_mo_net.Message.{Msg, sensor_max, group_sensor}
use esp_mo_net.Rtos.{Rtos}
use esp_mo_net.Bus.{send_each, place}

-- The calls that a `LockGuard` makes.
pub data LockCall : Type 0 where
  taken given : ℕ → LockCall

-- A guard: `mutex_` and `held_`.
pub record LockGuard : Type 0 where
  pub mutex : ℕ
  pub held : Bool

-- The constructor; the wait is without end, so the mutex is got.
abbrev pub lock : ℕ → LockGuard × List LockCall
lock mutex =
    if mutex == 0
    then (record { mutex = mutex; held = false }, [])
    else (record { mutex = mutex; held = true }, taken mutex ∷ [])

-- The destructor.
abbrev pub unlock : LockGuard → List LockCall
unlock guard = if guard.held then given guard.mutex ∷ [] else []

-- What a method's guard calls from its construction to the end of the scope.
unfoldable pub guarded : ℕ → List LockCall
guarded mutex = let (guard, calls) = lock mutex in calls ++ unlock guard

abbrev pub max_subscribers_per_topic : ℕ
max_subscribers_per_topic = 8

abbrev pub max_group_subscribers : ℕ
max_group_subscribers = 8

pub record MessageBus : Type 0 where
  pub mutex : ℕ
  pub topic_subs : List (List ℕ)
  pub group_subs : List ℕ
  pub group_count : ℕ

-- The constructor, with the handle that `xSemaphoreCreateMutex` returned.
unfoldable pub construct : ℕ → MessageBus
construct mutex = record {
  mutex = mutex;
  topic_subs = replicate sensor_max (replicate max_subscribers_per_topic 0);
  group_subs = replicate max_group_subscribers 0;
  group_count = 0;
}

unfoldable pub group_of : ℕ → ℕ
group_of topic = if ltb topic sensor_max then group_sensor else 0xFFFF

-- `MessageBus::publish`
module _ (os : Rtos) where
  open os use {World}

  unfoldable pub publish : MessageBus → Msg → World → World × List LockCall
  unfolding group_of send_each
  publish bus m w =
      let w₁ =
        if ltb m.topic sensor_max then send_each os m (get_or bus.topic_subs m.topic []) w else w in
      let w₂ =
        if group_of m.topic == group_sensor
        then send_each os m (take bus.group_count bus.group_subs) w₁
        else w₁ in
      (w₂, guarded bus.mutex)

  -- `monet_cpp_bus_publish`; the message is `none` for a null pointer.
  unfoldable pub monet_cpp_bus_publish : MessageBus → Option Msg → World → World × List LockCall
  monet_cpp_bus_publish bus none w = (w, [])
  monet_cpp_bus_publish bus (some m) w = publish bus m w

-- What a subscription answers, the bus, and the calls of the guard.
abbrev pub Answer : Type 0
Answer = Bool × MessageBus × List LockCall

-- The loop for a free slot.
abbrev pub in_slot : MessageBus → ℕ → Option (List ℕ) → Answer
in_slot bus topic none = (false, bus, guarded bus.mutex)
in_slot bus topic (some slots) =
    (true, record bus { topic_subs = set bus.topic_subs topic slots }, guarded bus.mutex)

-- `MessageBus::subscribe`, and `monet_cpp_bus_subscribe`
unfoldable pub subscribe : MessageBus → ℕ → ℕ → Answer
unfolding place guarded
subscribe bus topic queue =
    if queue == 0 || leb sensor_max topic
    then (false, bus, [])
    else in_slot bus topic (place queue (get_or bus.topic_subs topic []))

-- `MessageBus::subscribe_group`, and `monet_cpp_bus_subscribe_group`
unfoldable pub subscribe_group : MessageBus → ℕ → ℕ → Answer
unfolding guarded
subscribe_group bus group_id queue =
    if not (group_id == group_sensor) || queue == 0
    then (false, bus, [])
    else if leb max_group_subscribers bus.group_count
    then (false, bus, guarded bus.mutex)
    else (
      true,
      record bus {
        group_subs = set bus.group_subs bus.group_count queue;
        group_count = bus.group_count + 1;
      },
      guarded bus.mutex,
    )
