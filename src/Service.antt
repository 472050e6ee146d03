-- ===== src/Service.antt =====
-- components/monet_core/include/monet_core/service_registry.h, and what components/monet_core/src/service_registry.c
-- does without the operating system: descriptors, entries, registration and subscriptions. A function pointer is a
-- number and 0 is NULL.
use Prim.Native.String.{String}
use text.Mathlib.Text.{◌==◌ as str_eq}
use esp_mo_net.Base.{
  [], ◌∷◌, ◌++◌, ℕ, Bool, Option, List, if◌then◌else◌, true, false, none, some, leb, length, ◌==◌,
  suc, ◌&&◌,
}
use esp_mo_net.Rtos.{Task, TaskArg, null}
use esp_mo_net.Bus.{Bus, subscribe, subscribe_group}
use esp_mo_net.Message.{sensor_max}
use mathlib.Core.Option

abbrev pub max_services : ℕ
max_services = 16

-- `MSG_TOPIC_END`
abbrev pub msg_topic_end : ℕ
msg_topic_end = sensor_max

-- `service_state_t`
pub data ServiceState : Type 0 where
  disabled running : ServiceState

abbrev pub is_running : ServiceState → Bool
is_running running = true
is_running disabled = false

-- `service_role_t`
pub data ServiceRole : Type 0 where
  no_role publisher subscriber : ServiceRole

abbrev pub is_subscriber : ServiceRole → Bool
is_subscriber subscriber = true
is_subscriber publisher = false
is_subscriber no_role = false

-- `service_desc_t`. `topics` is the array with its end mark.
pub record ServiceDesc : Type 0 where
  pub name : Option String
  pub task_fn : ℕ
  pub task_name : Option String
  pub stack_size : ℕ
  pub priority : ℕ
  pub role : ServiceRole
  pub topics : Option (List ℕ)
  pub sink_cb : ℕ

-- `service_entry_t`
pub record ServiceEntry : Type 0 where
  pub desc : ServiceDesc
  pub handle : ℕ
  pub state : ServiceState
  pub task_arg : TaskArg

-- `strcmp(entry.desc->name, name) == 0`
abbrev pub is_named : String → Option String → Bool
is_named name none = false
is_named name (some n) = str_eq n name

abbrev pub fresh_entry : ServiceDesc → ServiceEntry
fresh_entry desc = record { desc = desc; handle = 0; state = disabled; task_arg = null }

-- The first entry of that name, with its index.
unfoldable pub find : String → List ServiceEntry → Option (ℕ × ServiceEntry)
find name [] = none
find name (e ∷ es) =
    if is_named name e.desc.name
    then some (0, e)
    else Option.map (λ found. (suc found.0, found.1)) (find name es)

abbrev pub is_some {ℓ} : {A : Type ℓ} → Option A → Bool
is_some none = false
is_some (some a) = true

-- `service_registry_register` with a descriptor whose name is not NULL.
abbrev pub register_named : ServiceDesc → String → List ServiceEntry → List ServiceEntry
register_named desc name es =
    if desc.task_fn == 0 && desc.sink_cb == 0
    then es
    else if leb max_services (length es)
    then es
    else if is_some (find name es)
    then es
    else es ++ fresh_entry desc ∷ []

-- `service_registry_register`; the descriptor is `none` for a NULL pointer.
unfoldable pub register : Option ServiceDesc → List ServiceEntry → List ServiceEntry
unfolding find
register none es = es
register (some desc) es = elim desc.name [ none ↦ es | some name ↦ register_named desc name es ]

-- The topics before the end mark.
unfoldable pub until_end : List ℕ → List ℕ
until_end [] = []
until_end (t ∷ ts) = if t == msg_topic_end then [] else t ∷ until_end ts

-- A topic from `EVENT_SENSOR_MAX` on is a group.
abbrev pub subscribe_topic : Bus → ℕ → ℕ → Bool × Bus
subscribe_topic bus topic queue =
    if leb sensor_max topic then subscribe_group bus topic queue else subscribe bus topic queue

-- A topic that is refused is only logged.
unfoldable pub subscribe_topics : ℕ → List ℕ → Bus → Bus
subscribe_topics queue [] bus = bus
subscribe_topics queue (t ∷ ts) bus = subscribe_topics queue ts (subscribe_topic bus t queue).1

abbrev or_default : ℕ → ℕ → ℕ
or_default n d = if n == 0 then d else n

-- `desc->task_name ? desc->task_name : desc->name`
abbrev task_name_of : ServiceDesc → Option String
task_name_of desc = elim desc.task_name [ none ↦ desc.name | some n ↦ some n ]

-- The address of `subscriber_dispatch_task`.
abbrev pub dispatch_task : ℕ
dispatch_task = 1

abbrev pub task_of : ServiceDesc → ℕ → TaskArg → Task
task_of desc entry arg = record {
  entry = entry;
  name = task_name_of desc;
  stack_size = or_default desc.stack_size 4096;
  priority = or_default desc.priority 5;
  arg = arg;
}
