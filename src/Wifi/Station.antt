-- ===== src/Wifi/Station.antt =====
-- The start of Wi-Fi: wifi_init_sta and wifi_get_rssi of components/monet_hal/src/wifi_hal.c, and
-- components/service/src/wifi_service.c.
use esp_mo_net.Base.{
  [], ◌∷◌, ◌++◌, refl, zero, suc, none, some, true, false, List, ℕ, take, Option, Bool, ◌≡◌, IsText,
  if◌then◌else◌, replicate, ◌^◌, ◌==◌, ◌-◌, length, arith, take-IsText, Bool-cases, ltb, inl, ◌+◌,
  inr,
}
use esp_mo_net.Service.{ServiceDesc, no_role}
use esp_mo_net.Wifi.{
  WifiEvent, Wifi, wifi_event_handler, got_ip, sta_start, sta_disconnected, wifi_other, max_retry,
}

-- The sizes of `sta.ssid` and `sta.password`.
abbrev ssid_size : ℕ
ssid_size = 32

abbrev password_size : ℕ
password_size = 64

-- `strncpy` into an array of `size` bytes: what is longer is cut, without a NUL.
unfoldable pub strncpy : ℕ → List ℕ → List ℕ
strncpy size s = take size s ++ replicate (size - length s) 0

-- `wifi_config_t`, the station's part that is set.
pub record StaConfig : Type 0 where
  ssid : List ℕ
  password : List ℕ

unfoldable sta_config : List ℕ → List ℕ → StaConfig
unfolding strncpy
sta_config ssid password = record {
  ssid = strncpy ssid_size ssid;
  password = strncpy password_size password;
}

-- `wifi_get_rssi`: -100 without an access point, as the 32-bit pattern.
unfoldable pub wifi_get_rssi : Option ℕ → ℕ
wifi_get_rssi none = 2 ^ 32 - 100
wifi_get_rssi (some rssi) = rssi

-- `wifi_service_wait_connected`: `xEventGroupWaitBits` returns once the bit is set, or with the time-out. The
-- events are those that come before the time-out; those behind the return are left.
unfoldable wait_connected : Wifi → List WifiEvent → Bool × Wifi
wait_connected w [] = (w.connected_bit, w)
wait_connected w (event ∷ events) =
    let later = wait_connected (wifi_event_handler w event).0 events in
    if w.connected_bit then (true, w) else later

-- The station as `wifi_init_sta` leaves it: a new event group; `retry_num` is as it was.
unfoldable wifi_init_sta : Wifi → Wifi
wifi_init_sta w = record w { connected_bit = false }

-- `wifi_service_start_and_wait`
unfoldable pub start_and_wait : Wifi → List WifiEvent → Bool × Wifi
unfolding wifi_init_sta wait_connected
start_and_wait w events = wait_connected (wifi_init_sta w) events

-- The descriptor; `task` is the address of `wifi_service_task`.
abbrev wifi_service_desc : ℕ → ServiceDesc
wifi_service_desc task = record {
  name = some "wifi_service";
  task_fn = task;
  task_name = some "wifi_service_task";
  stack_size = 5120;
  priority = 4;
  role = no_role;
  topics = none;
  sink_cb = 0;
}

-- Whether an address came.
abbrev pub address_came : List WifiEvent → Bool
address_came [] = false
address_came (got_ip ∷ events) = true
address_came (sta_start ∷ events) = address_came events
address_came (sta_disconnected ∷ events) = address_came events
address_came (wifi_other ∷ events) = address_came events

wait_set :
    (w : Wifi) (events : List WifiEvent)
    → w.connected_bit ≡ true
    → (wait_connected w events).0 ≡ true
unfolding wait_connected
wait_set w [] on = on
wait_set w (event ∷ events) on = rw on

-- Without the bit, only an address sets it.
wait_lem :
    (w : Wifi) (events : List WifiEvent)
    → w.connected_bit ≡ false
    → (wait_connected w events).0 ≡ address_came events
unfolding wait_connected wifi_event_handler
wait_lem w [] off = off
wait_lem w (got_ip ∷ events) off =
    simp off (wait_set (record { retry_num = 0; connected_bit = true }) events refl)
wait_lem w (sta_start ∷ events) off = simp off (wait_lem w events off)
wait_lem w (sta_disconnected ∷ events) off = elim (Bool-cases (ltb w.retry_num max_retry)) [
  | inl more ↦
      simp (off, more)
        (wait_lem (record { retry_num = w.retry_num + 1; connected_bit = false }) events refl)
  | inr enough ↦ simp (off, enough) (wait_lem (record w { connected_bit = false }) events refl)
]
wait_lem w (wifi_other ∷ events) off = simp off (wait_lem w events off)

-- The wait succeeds exactly if an address came among the events.
pub start_and_wait_lem :
    (w : Wifi) (events : List WifiEvent) → ((start_and_wait w events).0 ≡ address_came events)
unfolding start_and_wait
start_and_wait_lem w events = wait_lem (wifi_init_sta w) events refl

-- A name that fits is read back from the field, up to its end or to the first NUL.
abbrev up_to_nul : List ℕ → List ℕ
up_to_nul [] = []
up_to_nul (c ∷ s) = if c == 0 then [] else c ∷ up_to_nul s

up_to_nul-append : (s : List ℕ) (n : ℕ) → IsText s → up_to_nul (s ++ replicate n 0) ≡ s
up_to_nul-append [] zero h = refl
up_to_nul-append [] (suc n) h = refl
up_to_nul-append (c ∷ s) n h = ground (arith, h.0, up_to_nul-append s n h.1)

-- The fields hold name and password, cut to the fields' sizes.
credentials_kept :
    (ssid password : List ℕ)
    → IsText ssid
    → IsText password
    → (up_to_nul (sta_config ssid password).ssid ≡ take ssid_size ssid)
      × (up_to_nul (sta_config ssid password).password ≡ take password_size password)
unfolding sta_config
credentials_kept ssid password hs hp = (
  up_to_nul-append (take 32 ssid) (32 - length ssid) (take-IsText 32 ssid hs),
  up_to_nul-append (take 64 password) (64 - length password) (take-IsText 64 password hp),
)
