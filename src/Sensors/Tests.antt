-- ===== src/Sensors/Tests.antt =====
-- Runs of the sensors' turns, and their theorems at concrete inputs.
use esp_mo_net.Base.{[], ◌∷◌, refl, suc, none, true, false, ℕ, replicate, arith, ◌+◌, ◌≡◌}
use esp_mo_net.Cache.{Config}
use esp_mo_net.Bus.{Bus, publish, send_each}
use esp_mo_net.Bus.Shape.{IsValid}
use esp_mo_net.Sensors.{
  Adc, LightState, resolve_adc_channel, adc_hal_read, adc_hal_init, adc1_channel_max, int_minus_one,
}
use esp_mo_net.Uploader.{Net}
use esp_mo_net.Format.{hundredths, round_div}
use esp_mo_net.Sensors.Climate.{dht22_task, climate_msg}
use esp_mo_net.Rtos.Simple.{simple, quiet}

-- A converter that gives 2047 plus the channel.
abbrev adc : Adc ℕ
adc = record {
  config_width = λ w. w;
  config_channel_atten = λ w channel. suc channel;
  get_raw = λ w channel. (2047 + channel, w);
}

-- Queue 5 listens to the light sensor.
abbrev wired : Bus
wired = record {
  subscriber_queues = replicate 8 0 ∷ (5 ∷ replicate 7 0) ∷ replicate 8 0 ∷ replicate 8 0 ∷ [];
  group_queues = replicate 8 0;
  group_queue_count = 0;
  mutex_created = true;
}

wired-IsValid : IsValid wired
wired-IsValid = ground arith

abbrev before : LightState adc simple
before = record { latest_adc = 0; driver = 7; bus = wired; world = quiet }

-- A network that is up and refuses every post.
abbrev refusing : Net ℕ
refusing = record {
  is_connected = λ w. true;
  post_send = λ json w. (false, suc w);
  post_image = λ bytes w. (false, suc w);
  frame_at = λ w p. none;
}

abbrev tiny : Config
tiny = record { max_items = 2; item_size = 128 }

channels :
    (resolve_adc_channel 9 ≡ 9)
    × (resolve_adc_channel 10 ≡ adc1_channel_max)
    × (adc_hal_read adc 10 7 ≡ (int_minus_one, 7))
    × (adc_hal_init adc 3 7 ≡ 4)
unfolding resolve_adc_channel adc_hal_read adc_hal_init
channels = (refl, refl, refl, refl)

sample : (adc_hal_read adc 3 7).0 ≡ 2050
unfolding resolve_adc_channel adc_hal_read
sample = refl

stub_small : (hundredths 0x41C80000 ≡ 2500) × (hundredths 0x42480000 ≡ 5000)
unfolding hundredths round_div
stub_small = (refl, refl)

-- The task runs, and its message is in the queue of a listener to the group.
task_runs :
    (dht22_task simple
        (5 ∷ [])
        (record wired { group_queues = 6 ∷ replicate 7 0; group_queue_count = 1 })
        quiet).1.queue
      6
    ≡ climate_msg 0x41C80000 0x42480000 5 ∷ []
unfolding dht22_task publish send_each
task_runs = refl
