-- ===== src/Wifi.antt =====
-- components/monet_hal/src/wifi_hal.c and components/service/src/wifi_service.c: the station's event
-- handler and the connected bit of its event group.
use esp_mo_net.Base.{
  true, false, [], ◌∷◌, ◌++◌, refl, zero, suc, none, some, ℕ, Bool, List, if◌then◌else◌, ltb, ◌+◌,
}
pub mod History
pub mod Station
pub mod Tests

-- `MAX_RETRY`
abbrev pub max_retry : ℕ
max_retry = 100

-- `retry_num`, and WIFI_CONNECTED_BIT of `s_wifi_event_group`.
pub record Wifi : Type 0 where
  pub retry_num : ℕ
  pub connected_bit : Bool

abbrev pub init : Wifi
init = record { retry_num = 0; connected_bit = false }

-- The events that the handler is registered for; `wifi_other` is any other event of Wi-Fi.
pub data WifiEvent : Type 0 where
  sta_start sta_disconnected got_ip wifi_other : WifiEvent

-- `wifi_event_handler`: the new state, and whether `esp_wifi_connect` is called.
unfoldable pub wifi_event_handler : Wifi → WifiEvent → Wifi × Bool
wifi_event_handler w sta_start = (w, true)
wifi_event_handler w sta_disconnected =
    if ltb w.retry_num max_retry
    then (record w { retry_num = w.retry_num + 1 }, true)
    else (record w { connected_bit = false }, false)
wifi_event_handler w got_ip = (record { retry_num = 0; connected_bit = true }, false)
wifi_event_handler w wifi_other = (w, false)

-- `wifi_service_is_connected`
abbrev pub is_connected : Wifi → Bool
is_connected w = w.connected_bit

-- The events one after the other, with the number of calls of `esp_wifi_connect`.
unfoldable pub run : Wifi → List WifiEvent → Wifi × ℕ
run w [] = (w, 0)
run w (event ∷ events) =
    let (w₁, connects) = wifi_event_handler w event in
    let (w₂, more) = run w₁ events in (w₂, (if connects then 1 else 0) + more)
