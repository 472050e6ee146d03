-- ===== src/App/Routes.antt =====
-- The routes that the configuration chooses (components/service/src/http_uploader_service.c), and their subscriptions.
use esp_mo_net.Base.{
  false, true, true, inl, inr, Bool-cases, leb, refl, false, List, ℕ, ◌≡◌, ◌≢◌, ◌==◌, arith, ◌∷◌,
  [], ◌∙◌, ap, ◌+◌, Bool, if◌then◌else◌,
}
use esp_mo_net.Service.{subscribe_topics, until_end}
use esp_mo_net.Bus.{Bus}
use esp_mo_net.Bus.Delivery.{subscriptions}
use esp_mo_net.Bus.Shape.{IsValid, subscribe-IsValid, subscribe_group-IsValid}
use esp_mo_net.App.{http_topics}
use esp_mo_net.Message.{sensor_light, sensor_max, group_sensor, sensor_jpeg}
use esp_mo_net.Bus.{subscribe, subscribe_group, place}
use esp_mo_net.Bus.{subscribe_row, row, subscribe_slots}
use esp_mo_net.Message.{sensor_max}
use esp_mo_net.Bus

-- How many of the routes carry light samples.
abbrev pub copies : Bool → Bool → ℕ
copies group light = (if group then 1 else 0) + (if light then 1 else 0)

module _ (q : ℕ) (nz : q ≢ 0) where
  single :
      (t : ℕ) (ts : List ℕ) (bus : Bus)
      → leb sensor_max t ≡ false
      → subscribe_topics q (t ∷ ts) bus
        ≡ subscribe_topics q ts (subscribe_row bus t (place q (row bus t))).1
  unfolding subscribe_topics subscribe
  single t ts bus sensor =
      let here : (q == 0) ≡ false = ground (arith, nz) in rw (sensor, here) refl

  several :
      (ts : List ℕ) (bus : Bus)
      → subscribe_topics q (group_sensor ∷ ts) bus
        ≡ subscribe_topics q ts (subscribe_slots bus (place q bus.group_queues)).1
  unfolding subscribe_topics subscribe_group
  several ts bus = let here : (q == 0) ≡ false = ground (arith, nz) in rw here refl

  same : (q == q) ≡ true
  same = ground arith

  miss : (0 == q) ≡ false
  miss = ground (arith, nz)

  finished : (bus : Bus) → subscribe_topics q [] bus ≡ bus
  unfolding subscribe_topics
  finished bus = refl

  -- The subscriptions of the uploader's queue to light samples, by the routes.
  pub subscriptions-http_topics :
      (group light jpeg : Bool)
      → subscriptions
          (subscribe_topics q (until_end (http_topics group light jpeg)) Bus.init)
          sensor_light
          q
        ≡ copies group light
  unfolding http_topics until_end place Bus.init
  subscriptions-http_topics true true true =
      ap (λ b. subscriptions b sensor_light q)
        (several _ _ ∙ single sensor_light _ _ refl ∙ single sensor_jpeg _ _ refl ∙ finished _)
      ∙ simp (same, miss) refl
  subscriptions-http_topics true true false =
      ap (λ b. subscriptions b sensor_light q)
        (several _ _ ∙ single sensor_light _ _ refl ∙ finished _)
      ∙ simp (same, miss) refl
  subscriptions-http_topics true false true =
      ap (λ b. subscriptions b sensor_light q)
        (several _ _ ∙ single sensor_jpeg _ _ refl ∙ finished _)
      ∙ simp (same, miss) refl
  subscriptions-http_topics true false false =
      ap (λ b. subscriptions b sensor_light q) (several _ _ ∙ finished _) ∙ simp (same, miss) refl
  subscriptions-http_topics false true true =
      ap (λ b. subscriptions b sensor_light q)
        (single sensor_light _ _ refl ∙ single sensor_jpeg _ _ refl ∙ finished _)
      ∙ simp (same, miss) refl
  subscriptions-http_topics false true false =
      ap (λ b. subscriptions b sensor_light q) (single sensor_light _ _ refl ∙ finished _)
      ∙ simp (same, miss) refl
  subscriptions-http_topics false false true =
      ap (λ b. subscriptions b sensor_light q) (single sensor_jpeg _ _ refl ∙ finished _)
      ∙ simp miss refl
  subscriptions-http_topics false false false =
      ap (λ b. subscriptions b sensor_light q) (finished _) ∙ simp miss refl

pub IsValid-subscribe_topics :
    (q : ℕ) (ts : List ℕ) (bus : Bus) → IsValid bus → IsValid (subscribe_topics q ts bus)
unfolding subscribe_topics
IsValid-subscribe_topics q [] bus v = v
IsValid-subscribe_topics q (t ∷ ts) bus v =
    IsValid-subscribe_topics q ts _ (elim (Bool-cases (leb sensor_max t)) [
      | inl g ↦ rw g (subscribe_group-IsValid bus t q v)
      | inr single ↦ rw single (subscribe-IsValid bus t q v)
    ])
