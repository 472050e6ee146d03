-- ===== src/App/Wired.antt =====
-- The subscriptions behind app_main (main/main.c), and what a turn of the light sensor then does.
use esp_mo_net.Base.{
  replicate, ◌++◌, min, false, true, true, refl, some, false, List, ℕ, Option, ◌≡◌, set, ◌≢◌, ◌==◌,
  arith, ◌∷◌, [], ◌∙◌, ap, get_elem?, length, Bool,
}
use esp_mo_net.Registry.{State, start_all, subscriber_queue}
use esp_mo_net.Service.{ServiceEntry, find, fresh_entry, subscribe_topics, until_end}
use esp_mo_net.Rtos.{Rtos}
use esp_mo_net.Registry.Ample.{IsAmple}
use esp_mo_net.Bus.{Bus}
use esp_mo_net.App.{Addresses, http_uploader_desc}
use esp_mo_net.App.Start.{AreSet}
use esp_mo_net.Sensors.{light_sensor_desc}
use esp_mo_net.Mjpeg.{mjpeg_service_desc}
use esp_mo_net.Bus.Shape.{init-IsValid, IsValid}
use esp_mo_net.App.{http_topics}
use esp_mo_net.Bus.{subscribe, subscribe_group, place}
use esp_mo_net.App.{app_main, add_others, add_light, Boot, nvs_setup}
use esp_mo_net.Wifi.Station.{address_came, start_and_wait_lem}
use esp_mo_net.Bus.Delivery.{room, publish_delivers}
use esp_mo_net.Sensors.{light_turn, light_msg, Adc, adc_hal_read}
use esp_mo_net.Service.{register}
use esp_mo_net.Bus.{subscribe_row, row, subscribe_slots}
use esp_mo_net.Registry.Steps.{plain_start, subscriber_start, three_starts, started_entry}
use esp_mo_net.App.Routes.{copies, subscriptions-http_topics, IsValid-subscribe_topics}
use esp_mo_net.Bus

module _ (os : Rtos) (ample : IsAmple os) (at : Addresses) (set' : AreSet at)
    (topics : List ℕ) where
  abbrev light_entry : ServiceEntry
  light_entry = fresh_entry (light_sensor_desc at.light_sensor_task)

  abbrev uploader_entry : ServiceEntry
  uploader_entry = fresh_entry (http_uploader_desc topics at.http_sink_handler)

  abbrev stream_entry : ServiceEntry
  stream_entry = fresh_entry (mjpeg_service_desc at.mjpeg_service_task)

  abbrev entries_of : ServiceEntry → ServiceEntry → ServiceEntry → List ServiceEntry
  entries_of l u s = l ∷ u ∷ s ∷ []

  find_light :
      (u s : ServiceEntry)
      → find "light_sensor_service" (entries_of light_entry u s) ≡ some (0, light_entry)
  unfolding find
  find_light u s = refl

  find_uploader :
      (h : ℕ) (s : ServiceEntry)
      → find "http_uploader" (entries_of (started_entry os ample light_entry h) uploader_entry s)
        ≡ some (1, uploader_entry)
  unfolding find
  find_uploader h s = refl

  find_stream :
      (h k : ℕ)
      → find "mjpeg_service" (
          entries_of
            (started_entry os ample light_entry h)
            (started_entry os ample uploader_entry k)
            stream_entry)
        ≡ some (2, stream_entry)
  unfolding find
  find_stream h k = refl

  -- The three starts: the uploader's queue is subscribed, and nothing else changes the bus.
  Wires : State os → Option (State os) → Type 0
  Wires s r =
      (st' : State os) × (q : ℕ) × (r ≡ some st')
      × (q ≢ 0)
      × (st'.bus ≡ subscribe_topics q (until_end topics) s.bus)

  all_start :
      (s : State os)
      → s.entries ≡ entries_of light_entry uploader_entry stream_entry
      → Wires s (start_all os s)
  unfolding Wires
  all_start s listed =
      let (s₁, h₁, r₁, e₁, b₁) =
        plain_start os ample s "light_sensor_service" 0 light_entry
          (rw listed (find_light uploader_entry stream_entry)) refl refl refl set'.light in
      let l₁ : s₁.entries
          ≡ entries_of (started_entry os ample light_entry h₁) uploader_entry stream_entry =
        e₁ ∙ ap (λ es. set es 0 (started_entry os ample light_entry h₁)) listed in
      let (s₂, h₂, r₂, e₂, b₂) =
        subscriber_start os ample s₁ "http_uploader" 1 uploader_entry topics
          (rw l₁ (find_uploader h₁ stream_entry)) refl refl refl refl in
      let l₂ : s₂.entries
          ≡ entries_of (started_entry os ample light_entry h₁)
              (started_entry os ample uploader_entry h₂) stream_entry =
        e₂ ∙ ap (λ es. set es 1 (started_entry os ample uploader_entry h₂)) l₁ in
      let (s₃, h₃, r₃, e₃, b₃) =
        plain_start os ample s₂ "mjpeg_service" 2 stream_entry (rw l₂ (find_stream h₁ h₂)) refl refl
          refl set'.stream in
      (
        s₃,
        subscriber_queue os s₁,
        three_starts os s s₁ s₂ s₃ light_entry uploader_entry stream_entry (ap length listed)
            (ap (λ es. get_elem? es 0) listed) (ap (λ es. get_elem? es 1) l₁)
            (ap (λ es. get_elem? es 2) l₂) r₁ r₂ r₃,
        ample.queue_made s₁.world 8,
        b₃ ∙ b₂ ∙ ap (λ b. subscribe_topics (subscriber_queue os s₁) (until_end topics) b) b₁,
      )

module _ (os : Rtos) (at : Addresses) (set' : AreSet at) where
  open os use {World, pending}

  ready_entries :
      (boot : Boot) (st : State os)
      → st.entries ≡ []
      → boot.uploader_enabled ≡ true
      → (add_others os at boot (add_light os at st)).entries
        ≡ fresh_entry (light_sensor_desc at.light_sensor_task)
          ∷ fresh_entry (http_uploader_desc boot.topics at.http_sink_handler)
          ∷ fresh_entry (mjpeg_service_desc at.mjpeg_service_task)
          ∷ []
  unfolding register find
  ready_entries boot st empty on =
      let light : (at.light_sensor_task == 0) ≡ false = ground (arith, set'.light) in
      let sink : (at.http_sink_handler == 0) ≡ false = ground (arith, set'.sink) in
      let stream : (at.mjpeg_service_task == 0) ≡ false = ground (arith, set'.stream) in
      rw (empty, on, light, sink, stream) refl

  -- Where memory suffices, no service is registered and no queue subscribed before, the flash's
  -- set-up succeeds, the station gets an address within the time that is waited, the functions'
  -- addresses are not NULL, and the configuration has the uploader with some choice of its three
  -- routes, app_main starts without a fault, and there is a queue, not NULL, into which every turn
  -- of the light sensor's task, on the bus as app_main leaves it, puts its message once for each
  -- of the two routes that carry it (the group, the light topic), as far as there is room.
  pub boot_wires_uploader :
      {W : Type 0} (adc : Adc W) (boot : Boot) (st : State os) (group light jpeg : Bool)
      → IsAmple os
      → st.entries ≡ []
      → st.bus ≡ Bus.init
      → nvs_setup boot.nvs boot.erased boot.again ≡ true
      → address_came boot.wifi_events ≡ true
      → boot.uploader_enabled ≡ true
      → boot.topics ≡ http_topics group light jpeg
      → (st' : State os) × (q : ℕ) × (app_main os at boot st ≡ some st')
        × (q ≢ 0)
        × ((driver : W) (latest chan_cfg now : ℕ) (w : World)
            → pending
                (light_turn adc os chan_cfg now
                  (record { latest_adc = latest; driver = driver; bus = st'.bus; world = w })).world
                q
              ≡ pending w q
                ++ replicate
                    (min (copies group light) (room os w q))
                    (light_msg (adc_hal_read adc chan_cfg driver).0 now))
  unfolding app_main light_turn light_msg Wires
  boot_wires_uploader adc boot st group light jpeg ample empty fresh nvs wifi on routes =
      let ready = add_others os at boot (add_light os at st) in
      let (st', q, starts, nz, wired) =
        all_start os ample at set' boot.topics ready (ready_entries boot st empty on) in
      (
        st',
        q,
        simp (nvs, start_and_wait_lem boot.wifi boot.wifi_events, wifi) starts,
        nz,
        λ driver latest chan_cfg now w.
            let bus : st'.bus
                ≡ subscribe_topics q (until_end (http_topics group light jpeg)) Bus.init =
              rw (wired, routes, fresh) refl in
            let valid : IsValid st'.bus = rw bus (IsValid-subscribe_topics q _ _ init-IsValid) in
            publish_delivers os st'.bus (light_msg (adc_hal_read adc chan_cfg driver).0 now) w q
              valid nz
            ∙ ap
                (λ n.
                  pending w q
                  ++ replicate (min n (room os w q))
                      (light_msg (adc_hal_read adc chan_cfg driver).0 now))
                (rw bus (subscriptions-http_topics q nz group light jpeg)),
      )
