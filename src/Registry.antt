-- ===== src/Registry.antt =====
-- components/monet_core/src/service_registry.c: services, their tasks and their subscriptions.
-- A function pointer is a number and 0 is NULL. `s_registry[0 .. s_registry_count)` is the list
-- `entries`. A `none` result is a fault: a write through the NULL that `malloc` returned.
pub mod Steps
pub mod Find
pub mod Invariant
pub mod Lifecycle
pub mod Passing
pub mod Startup
pub mod Ample
pub mod Stop
pub mod Slots
pub mod Histories
pub mod AutoSubscribe
pub mod Leak
mod Tests
use Prim.Native.String.{String}
use text.Mathlib.Text.{◌==◌ as str_eq}
use esp_mo_net.Base.{
  zero, [], ◌∷◌, ◌++◌, ℕ, Bool, Option, List, if◌then◌else◌, true, false, none, some, leb, length,
  ◌==◌, suc, ◌&&◌, set, ◌*◌, get_elem?, ◌>>=◌, ◌+◌,
}
use esp_mo_net.Service.{
  disabled, running, ServiceEntry, subscribe_topics, ServiceDesc, find, ServiceState, until_end,
  task_of, is_subscriber, is_running, dispatch_task,
}
use esp_mo_net.Rtos.{Rtos, Task, TaskArg, null, subscriber_ctx}
use esp_mo_net.Bus.{Bus, subscribe, subscribe_group}
use esp_mo_net.Message.{sensor_max}
use mathlib.Core.Option

module _ (os : Rtos) where
  open os use {
    World, queue_create, queue_delete, task_create, task_delete, stack_high_water_mark,
    stack_type_size, heap_has_room,
  }

  -- The registry, the bus that it subscribes to, and the operating system.
  pub record State : Type 0 where
    pub entries : List ServiceEntry
    pub bus : Bus
    pub world : World

  -- The task exists from here on, if `xTaskCreate` passed.
  abbrev pub started : State → ℕ → ServiceEntry → Option ℕ × World → Bool × State
  started st i e (none, w) = (false, record st { world = w })
  started st i e (some h, w) = (
    true,
    record st { entries = set st.entries i (record e { handle = h; state = running }); world = w },
  )

  -- The queue of a subscriber, and the state once the queue is created and subscribed.
  abbrev pub subscriber_queue : State → ℕ
  subscriber_queue st = (queue_create st.world 8).0

  abbrev pub subscribed : State → List ℕ → State
  subscribed st topics = record st {
    bus = subscribe_topics (subscriber_queue st) (until_end topics) st.bus;
    world = (queue_create st.world 8).1;
  }

  -- The task of the dispatcher.
  abbrev pub subscriber_task : State → ServiceDesc → Task
  subscriber_task st desc =
      task_of desc dispatch_task (subscriber_ctx (subscriber_queue st) desc.sink_cb)

  -- Case 1: the context, the queue, its subscriptions, and the task of the dispatcher.
  unfoldable pub start_subscriber : State → ℕ → ServiceEntry → List ℕ → Option (Bool × State)
  start_subscriber st i e topics =
      let st₁ = subscribed st topics in
      if heap_has_room st.world
      then some (started st₁ i e (task_create st₁.world (subscriber_task st e.desc)))
      else none

  -- Case 2: a task of the service's own; case 3: nothing to start.
  unfoldable pub start_task : State → ℕ → ServiceEntry → Bool × State
  start_task st i e =
      if e.desc.task_fn == 0
      then (false, st)
      else started st i e (task_create st.world (task_of e.desc e.desc.task_fn null))

  abbrev pub start_by_role : State → ℕ → ServiceEntry → Option (List ℕ) → Option (Bool × State)
  start_by_role st i e none = some (start_task st i e)
  start_by_role st i e (some topics) =
      if is_subscriber e.desc.role then start_subscriber st i e topics else some (start_task st i e)

  abbrev pub start_found : State → Option (ℕ × ServiceEntry) → Option (Bool × State)
  start_found st none = some (false, st)
  start_found st (some (i, e)) =
      if is_running e.state then some (false, st) else start_by_role st i e e.desc.topics

  -- `service_registry_start`
  unfoldable pub start : State → String → Option (Bool × State)
  unfolding find start_subscriber start_task
  start st name = start_found st (find name st.entries)

  -- The context of a subscriber is cleaned up if the entry knows it.
  abbrev pub drop_task_arg : ServiceEntry → World → TaskArg × World
  drop_task_arg e w = elim e.task_arg [
    | null ↦ (null, w)
    | subscriber_ctx queue sink ↦
        if is_subscriber e.desc.role
        then (null, queue_delete w queue)
        else (subscriber_ctx queue sink, w)
  ]

  abbrev pub stop_found : State → Option (ℕ × ServiceEntry) → Bool × State
  stop_found st none = (false, st)
  stop_found st (some (i, e)) =
      let (arg, w) = drop_task_arg e (task_delete st.world e.handle) in
      if is_running e.state
      then (
        true,
        record st {
          entries = set st.entries i (record e { handle = 0; state = disabled; task_arg = arg });
          world = w;
        },
      )
      else (false, st)

  -- `service_registry_stop`
  unfoldable pub stop : State → String → Bool × State
  unfolding find
  stop st name = stop_found st (find name st.entries)

  -- `service_registry_restart`
  unfoldable pub restart : State → String → Option (Bool × State)
  restart st name =
      let (stopped, st') = stop st name in if stopped then start st' name else some (false, st')

  abbrev pub start_if_disabled : State → Option ServiceEntry → Option State
  start_if_disabled st none = some st
  start_if_disabled st (some e) = elim e.desc.name [
    | none ↦ none
    | some name ↦ if is_running e.state then some st else Option.map (λ r. r.1) (start st name)
  ]

  -- The loop of `service_registry_start_all` over the indices from `i` on, `n` of them.
  unfoldable pub start_from : ℕ → ℕ → State → Option State
  start_from zero i st = some st
  start_from (suc n) i st =
      start_if_disabled st (get_elem? st.entries i) >>= λ st'. start_from n (i + 1) st'

  unfoldable pub start_all : State → Option State
  unfolding start_from
  start_all st = start_from (length st.entries) 0 st

  -- `service_status_t`
  pub record ServiceStatus : Type 0 where
    pub state : ServiceState
    stack_remaining : ℕ

  abbrev status_of : State → ServiceEntry → ServiceStatus
  status_of st e = record {
    state = e.state;
    stack_remaining =
        if e.handle == 0 then 0 else stack_high_water_mark st.world e.handle * stack_type_size;
  }

  -- `service_registry_status` with somewhere to put the answer; `none` is its false.
  unfoldable pub status : State → String → Option ServiceStatus
  unfolding find
  status st name = Option.map (λ found. status_of st found.1) (find name st.entries)

  -- `service_registry_get_stack_usage`; `none` is its -1.
  unfoldable get_stack_usage : State → String → Option ℕ
  unfolding find
  get_stack_usage st name =
      Option.map (λ found. stack_high_water_mark st.world found.1.handle) (find name st.entries)
