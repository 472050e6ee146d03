-- ===== src/Registry/AutoSubscribe.antt =====
-- _auto_subscribe of components/monet_core/src/service_registry.c, an earlier way to subscribe a service; no
-- function calls it.
use esp_mo_net.Base.{
  [], ◌∷◌, refl, none, some, true, false, List, ℕ, Bool, Option, ◌≡◌, ◌||◌, if◌then◌else◌, ◌==◌,
}
use esp_mo_net.Rtos.{Rtos}
use esp_mo_net.Bus.{Bus}
use esp_mo_net.Service.{until_end, subscribe_topics, subscribe_topic, ServiceDesc, is_subscriber}

-- The loop over the topics: whether any was accepted, and the bus.
unfoldable subscribe_each : ℕ → List ℕ → Bus → Bool × Bus
subscribe_each queue [] bus = (false, bus)
subscribe_each queue (t ∷ ts) bus =
    let (ok, bus₁) = subscribe_topic bus t queue in
    let (more, bus₂) = subscribe_each queue ts bus₁ in (ok || more, bus₂)

module _ (os : Rtos) where
  open os use {World, queue_create, queue_delete}

  -- The queue is deleted if no topic was accepted.
  abbrev settle_queue : ℕ → Bool × Bus → World → Bool × Option ℕ × Bus × World
  settle_queue q (subscribed, bus) w =
      if subscribed then (true, some q, bus, w) else (false, none, bus, queue_delete w q)

  -- `_auto_subscribe`: the answer, what it writes to `out_q`, the bus and the world.
  unfoldable auto_subscribe : ServiceDesc → Bus → World → Bool × Option ℕ × Bus × World
  unfolding subscribe_each until_end
  auto_subscribe desc bus w = by_topics desc.topics
    where
      subscribing : List ℕ → ℕ × World → Bool × Option ℕ × Bus × World
      subscribing ts (q, w') =
          if q == 0
          then (false, none, bus, w')
          else settle_queue q (subscribe_each q (until_end ts) bus) w'

      by_topics : Option (List ℕ) → Bool × Option ℕ × Bus × World
      by_topics none = (true, none, bus, w)
      by_topics (some ts) =
          if is_subscriber desc.role
          then subscribing ts (queue_create w 4)
          else (true, none, bus, w)

-- The start of a subscriber subscribes to the same topics, but does not ask whether any was accepted.
subscribe_each-subscribe_topics :
    (queue : ℕ) (ts : List ℕ) (bus : Bus)
    → (subscribe_each queue ts bus).1 ≡ subscribe_topics queue ts bus
unfolding subscribe_each subscribe_topics
subscribe_each-subscribe_topics queue [] bus = refl
subscribe_each-subscribe_topics queue (t ∷ ts) bus =
    subscribe_each-subscribe_topics queue ts (subscribe_topic bus t queue).1
