-- ===== src/Gateway/Wifi/Override.antt =====
-- The build of esp_ble_mesh/provisioner/main/gateway_bridge.c with a network of its own,
-- CONFIG_FARMELY_WIFI_SSID.
use esp32_ble_mesh.Base.{
  Bool, List, [], and_left, and_right, arith, false, suc, true, ℕ, ◌&&◌, ◌∷◌, ◌≡◌,
}
use esp32_ble_mesh.Gateway.Publish.{is_empty}
use esp32_ble_mesh.Gateway.State.{Bridge, Env, Outs, wifi_connect, zeroed}
use esp32_ble_mesh.Gateway.Wifi.{
  WifiEvent, ap_start, bridge_start, on_ap_start, set_up, sta_disconnected, sta_got_ip, sta_start,
  start_wifi, wifi_event_handler,
}

-- The number of attempts to join a network.
abbrev pub connects : Outs → ℕ
connects [] = 0
connects (wifi_connect ∷ outs) = suc (connects outs)
connects (_ ∷ outs) = connects outs

-- The events of a station that has no address.
abbrev pub no_address : WifiEvent → Bool
no_address sta_got_ip = false
no_address _ = true

abbrev pub never_address : List WifiEvent → Bool
never_address [] = true
never_address (e ∷ es) = no_address e && never_address es

unfoldable pub handle_all : Env → List WifiEvent → Bridge → Bridge
handle_all env [] s = s
handle_all env (e ∷ es) s = handle_all env es (wifi_event_handler env e s).1

abbrev Waits : Bridge → ℕ → Type 0
Waits s n = (s.wifi_autoconnect ≡ false) × (connects s.outs ≡ n)

event-Waits :
    (env : Env) (e : WifiEvent) (s : Bridge) (n : ℕ)
    → no_address e ≡ true
    → Waits s n
    → Waits (wifi_event_handler env e s).1 n
unfolding wifi_event_handler on_ap_start
event-Waits env ap_start s n quiet w = ground (arith, w)
event-Waits env sta_start s n quiet w = ground (arith, w)
event-Waits env sta_disconnected s n quiet w = ground (arith, w)
event-Waits env sta_got_ip s n quiet w = cc
event-Waits env WifiEvent.other_event s n quiet w = w

all-Waits :
    (env : Env) (es : List WifiEvent) (s : Bridge) (n : ℕ)
    → never_address es ≡ true
    → Waits s n
    → Waits (handle_all env es s) n
unfolding handle_all
all-Waits env [] s n quiet w = w
all-Waits env (e ∷ es) s n quiet w =
    all-Waits env es _ n (and_right (no_address e) (never_address es) quiet)
      (event-Waits env e s n (and_left (no_address e) (never_address es) quiet) w)

start-Waits :
    (env : Env) (gateway_id : List ℕ) (command sync : Bool) (nonce : ℕ)
    → is_empty env.wifi_ssid ≡ false
    → Waits (bridge_start env gateway_id command sync nonce zeroed).1 0
unfolding bridge_start set_up start_wifi
start-Waits env gateway_id command sync nonce override = ground (arith, override)

-- In a build with a network of its own the gateway never tries to join it: whatever the libraries
-- answer, and over all events of a station that has no address, `esp_wifi_connect` is not called.
pub override_never_connects :
    (env : Env) (gateway_id : List ℕ) (command sync : Bool) (nonce : ℕ) (es : List WifiEvent)
    → is_empty env.wifi_ssid ≡ false
    → never_address es ≡ true
    → connects (handle_all env es (bridge_start env gateway_id command sync nonce zeroed).1).outs
      ≡ 0
override_never_connects env gateway_id command sync nonce es override quiet =
    (all-Waits env es _ 0 quiet (start-Waits env gateway_id command sync nonce override)).1
