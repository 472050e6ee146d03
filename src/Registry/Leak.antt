-- ===== src/Registry/Leak.antt =====
-- The context of a subscriber's task (components/monet_core/src/service_registry.c): a start hands it
-- to the task and does not note it in the entry, so a stop cannot give its queue back.
use Prim.Native.String.{String}
use text.Mathlib.TextPositions.{eq_refl}
use esp_mo_net.Base.{
  refl, none, some, ℕ, Option, ◌≡◌, true, set, arith, ◌≢◌, List, ap, ◌∙◌, min, ◌+◌, suc, ◌≤◌,
}
use esp_mo_net.Rtos.{Rtos, null}
use esp_mo_net.Registry.{
  State, stop, start, subscriber_queue, subscribed, started, subscriber_task, start_found,
  start_by_role, restart,
}
use esp_mo_net.Service.{
  ServiceEntry, find, running, disabled, is_running, subscriber, subscribe_topics, until_end,
  is_subscriber,
}
use esp_mo_net.Registry.Find.{find-set}
use esp_mo_net.Registry.Invariant.{IsValid}
use esp_mo_net.Bus.{max_subscribers_per_group}
use esp_mo_net.Bus.Delivery.{subscriptions}
use esp_mo_net.Registry.Slots.{group_uses, topics-Grows}
use esp_mo_net.Registry.Stop.{valid_stop_leaks}
use esp_mo_net.Registry.Ample.{IsAmple}
use esp_mo_net.Bus.Shape

-- A service whose queue the registry subscribes.
pub record IsSink (e : ServiceEntry) : Type 0 where
  pub role : e.desc.role ≡ subscriber
  pub listed : List ℕ
  pub topics : e.desc.topics ≡ some listed

module _ (os : Rtos) (st : State os) (i : ℕ) (e : ServiceEntry) (sink : IsSink e) where
  -- What `xTaskCreate` returns for the dispatcher of such a service.
  abbrev created_task : Option ℕ × os.World
  created_task =
      let st₁ = subscribed os st sink.listed in
      os.task_create st₁.world (subscriber_task os st e.desc)

  start_sink :
      (name : String)
      → os.heap_has_room st.world ≡ true
      → find name st.entries ≡ some (i, e)
      → e.state ≡ disabled
      → start os st name ≡ some (started os (subscribed os st sink.listed) i e created_task)
  unfolding start
  start_sink name room at idle =
      ap (start_found os st) at
      ∙ rw (ap is_running idle)
          (ap (start_by_role os st i e) sink.topics ∙ rw (ap is_subscriber sink.role) (rw room))

  created : (c : Option ℕ × os.World) → c.0 ≢ none → (h : ℕ) × (c ≡ (some h, c.1))
  created (none, w) made = absurd (made refl)
  created (some h, w) made = (h, refl)

  -- A start of such a service passes and adds the subscription of a new queue.
  start_subscribes :
      (name : String)
      → IsAmple os
      → find name st.entries ≡ some (i, e)
      → e.state ≡ disabled
      → (st' : State os) × (h : ℕ) × (start os st name ≡ some (true, st'))
        × (st'.bus ≡ subscribe_topics (subscriber_queue os st) (until_end sink.listed) st.bus)
        × (st'.entries ≡ set st.entries i (record e { handle = h; state = running }))
  start_subscribes name ample at idle =
      let (h, made) = created created_task (ample.task_made _ _) in
      (
        (started os (subscribed os st sink.listed) i e (some h, created_task.1)).1,
        h,
        start_sink name (ample.room st.world) at idle
            ∙ ap (λ c. some (started os (subscribed os st sink.listed) i e c)) made,
        refl,
        refl,
      )

-- An entry, and the whole state, once its service is stopped.
abbrev stopped_entry : ServiceEntry → ServiceEntry
stopped_entry e = record e { handle = 0; state = disabled; task_arg = null }

abbrev pub stopped_state : (os : Rtos) → State os → ℕ → ServiceEntry → State os
stopped_state os st i e = record st {
  entries = set st.entries i (stopped_entry e);
  world = os.task_delete st.world e.handle;
}

module _ (os : Rtos) (st : State os) (name : String) (i : ℕ) (e : ServiceEntry) where
  -- A restart of such a running service passes; it subscribes a new queue, and the bus is otherwise
  -- as it was.
  restart_subscribes :
      (sink : IsSink e)
      → IsAmple os
      → IsValid st.entries
      → find name st.entries ≡ some (i, e)
      → e.state ≡ running
      → (st' : State os) × (queue : ℕ) × (restart os st name ≡ some (true, st'))
        × (queue ≢ 0)
        × (st'.bus ≡ subscribe_topics queue (until_end sink.listed) st.bus)
  unfolding restart
  restart_subscribes sink ample v at runs =
      let st₁ : State os = stopped_state os st i e in
      let sink₁ : IsSink (stopped_entry e) = record {
        role = sink.role;
        listed = sink.listed;
        topics = sink.topics;
      } in
      let stops : stop os st name ≡ (true, st₁) =
        let (passed, left) = valid_stop_leaks os st name i e v at runs in ground arith in
      let at₁ : find name st₁.entries ≡ some (i, stopped_entry e) =
        find-set name e (stopped_entry e) refl name st.entries i at ∙ rw (eq_refl name) in
      let (st', h, passes, bus, _) =
        start_subscribes os st₁ i (stopped_entry e) sink₁ name ample at₁ refl in
      (st', subscriber_queue os st₁, rw stops passes, ample.queue_made st₁.world 8, bus)

  -- Where memory suffices, a restart of a running subscriber passes and takes as many more of the
  -- group's eight slots as its topics name the group, up to eight; no queue loses a subscription.
  -- The registry and the bus are valid.
  pub restart_takes_slot :
      (sink : IsSink e)
      → IsAmple os
      → IsValid st.entries
      → Shape.IsValid st.bus
      → find name st.entries ≡ some (i, e)
      → e.state ≡ running
      → (st' : State os) × (restart os st name ≡ some (true, st'))
        × (st'.bus.group_queue_count
            ≡ min max_subscribers_per_group
                (st.bus.group_queue_count + group_uses (until_end sink.listed)))
        × ((t h : ℕ) → subscriptions st.bus t (suc h) ≤ subscriptions st'.bus t (suc h))
  restart_takes_slot sink ample v bv at runs =
      let (st', queue, passes, nz, bus) = restart_subscribes sink ample v at runs in
      let grown = topics-Grows queue nz (until_end sink.listed) st.bus bv in
      (st', passes, rw bus grown.slots, rw bus grown.kept)
