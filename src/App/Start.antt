-- ===== src/App/Start.antt =====
-- What runs once app_main (main/main.c) has started the services.
use esp_mo_net.Base.{
  [], ◌∷◌, ◌++◌, refl, some, true, false, List, ℕ, ◌≢◌, Bool, ◌≡◌, All, if◌then◌else◌, ◌==◌, inr,
  arith, inl, ◌∙◌, Bool-cases,
}
use esp_mo_net.Registry.{State}
use esp_mo_net.Service.{ServiceDesc, running, disabled, register, find, fresh_entry}
use esp_mo_net.Registry.Invariant.{IsValid, register-IsValid, IsValid-empty}
use esp_mo_net.Registry.Find.{descs}
use esp_mo_net.App.{Addresses, Boot, app_main, add_light, add_others, nvs_setup, http_uploader_desc}
use esp_mo_net.Rtos.{Rtos}
use esp_mo_net.Sensors.{light_sensor_desc}
use esp_mo_net.Registry.Ample.{IsAmple}
use esp_mo_net.Registry.Passing.{CanStart}
use esp_mo_net.Registry.Startup.{start_all_runs}
use esp_mo_net.Mjpeg.{mjpeg_service_desc}
use esp_mo_net.Wifi.Station.{address_came, start_and_wait_lem}

-- The addresses of functions are not NULL.
pub record AreSet (at : Addresses) : Type 0 where
  pub light : at.light_sensor_task ≢ 0
  pub sink : at.http_sink_handler ≢ 0
  pub stream : at.mjpeg_service_task ≢ 0

-- The services of the program, in the order of their registration.
abbrev pub services : Addresses → Bool → List ℕ → List ServiceDesc
services at enabled topics =
    light_sensor_desc at.light_sensor_task
    ∷ ((if enabled then http_uploader_desc topics at.http_sink_handler ∷ [] else [])
        ++ mjpeg_service_desc at.mjpeg_service_task ∷ [])

module _ (os : Rtos) (at : Addresses) (set : AreSet at) where
  descs-add_light :
      (st : State os)
      → st.entries ≡ []
      → (add_light os at st).entries ≡ fresh_entry (light_sensor_desc at.light_sensor_task) ∷ []
  unfolding register
  descs-add_light st empty =
      let task : (at.light_sensor_task == 0) ≡ false = ground (arith, set.light) in rw (empty, task)

  descs-add_others :
      (boot : Boot) (st : State os)
      → st.entries ≡ []
      → descs (add_others os at boot (add_light os at st)).entries
        ≡ services at boot.uploader_enabled boot.topics
  unfolding register find
  descs-add_others boot st empty =
      let light : (at.light_sensor_task == 0) ≡ false = ground (arith, set.light) in
      let sink : (at.http_sink_handler == 0) ≡ false = ground (arith, set.sink) in
      let stream : (at.mjpeg_service_task == 0) ≡ false = ground (arith, set.stream) in
      elim (Bool-cases boot.uploader_enabled) [
        | inl on ↦ rw (empty, on, light, sink, stream)
        | inr off ↦ rw (empty, off, light, stream)
      ]

  services-CanStart : (enabled : Bool) (topics : List ℕ) → All CanStart (services at enabled topics)
  services-CanStart true topics = (inr set.light, (inl (refl, λ e. cc), (inr set.stream, tt)))
  services-CanStart false topics = (inr set.light, (inr set.stream, tt))

  add_others-IsValid :
      (boot : Boot) (st : State os)
      → st.entries ≡ []
      → IsValid (add_others os at boot (add_light os at st)).entries
  add_others-IsValid boot st empty =
      register-IsValid _ _ (register-IsValid _ _ (register-IsValid _ _ (rw empty IsValid-empty)))

  -- Where memory suffices, no service is registered before, the flash's set-up succeeds, the
  -- station gets an address within the time that is waited, and the functions' addresses are not
  -- NULL, app_main starts without a fault, and then exactly the light sensor, the uploader (unless
  -- the configuration leaves it out) and the stream are registered, in this order, and all of them
  -- run.
  pub app_main_starts :
      (boot : Boot) (st : State os)
      → IsAmple os
      → st.entries ≡ []
      → nvs_setup boot.nvs boot.erased boot.again ≡ true
      → address_came boot.wifi_events ≡ true
      → (st' : State os) × (app_main os at boot st ≡ some st')
        × All (λ e. e.state ≡ running) st'.entries
        × (descs st'.entries ≡ services at boot.uploader_enabled boot.topics)
  unfolding app_main
  app_main_starts boot st ample empty nvs wifi =
      let ready = add_others os at boot (add_light os at st) in
      let listed = descs-add_others boot st empty in
      let (st', starts, all, same) =
        start_all_runs os ample ready (add_others-IsValid boot st empty)
          (rw listed (services-CanStart boot.uploader_enabled boot.topics)) in
      (
        st',
        simp (nvs, start_and_wait_lem boot.wifi boot.wifi_events, wifi) starts,
        all,
        same ∙ listed,
      )

  -- Without Wi-Fi, the light sensor alone is registered, and nothing runs.
  app_main_without_wifi :
      (boot : Boot) (st : State os)
      → st.entries ≡ []
      → nvs_setup boot.nvs boot.erased boot.again ≡ true
      → address_came boot.wifi_events ≡ false
      → (st' : State os) × (app_main os at boot st ≡ some st')
        × All (λ e. e.state ≡ disabled) st'.entries
        × (descs st'.entries ≡ light_sensor_desc at.light_sensor_task ∷ [])
        × (st'.world ≡ st.world)
  unfolding app_main
  app_main_without_wifi boot st empty nvs wifi = (
    add_light os at st,
    simp (nvs, start_and_wait_lem boot.wifi boot.wifi_events, wifi) refl,
    rw (descs-add_light st empty) (refl, tt),
    rw (descs-add_light st empty) refl,
    refl,
  )
