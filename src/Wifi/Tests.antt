-- ===== src/Wifi/Tests.antt =====
-- Concrete runs of components/monet_hal/src/wifi_hal.c.
use esp_mo_net.Base.{true, [], ◌∷◌, refl, List, ◌≡◌}
use esp_mo_net.Wifi.{sta_start, sta_disconnected, got_ip, run, WifiEvent, wifi_event_handler, init}
use esp_mo_net.Wifi.History.{state_of, observe_all, nothing_seen, state_by_history}

abbrev one_drop : List WifiEvent
one_drop = sta_start ∷ got_ip ∷ sta_disconnected ∷ []

one_drop_runs : run init one_drop ≡ (record { retry_num = 1; connected_bit = true }, 2)
unfolding run wifi_event_handler
one_drop_runs = refl

state_by_history_example : (run init one_drop).0 ≡ state_of (observe_all nothing_seen one_drop)
state_by_history_example = state_by_history one_drop
