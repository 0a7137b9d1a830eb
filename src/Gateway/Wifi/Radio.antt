-- ===== src/Gateway/Wifi/Radio.antt =====
-- Who has the radio during the Wi-Fi provisioning of
-- esp_ble_mesh/provisioner/main/gateway_bridge.c.
use esp32_ble_mesh.Base.{Bool, [], arith, false, none, true, ◌∷◌, ◌≡◌, ◌⊎◌}
use esp32_ble_mesh.Gateway.State.{Bridge, Env, Outs, portal_start, portal_stop, yielded_radio}
use esp32_ble_mesh.Gateway.Wifi.{gateway_wifi_task, provisioning_window}

-- Whether the mesh has been asked to yield the radio, and whether the portal is open, last.
abbrev pub yielded : Outs → Bool
yielded [] = false
yielded (yielded_radio b ∷ outs) = b
yielded (_ ∷ outs) = yielded outs

abbrev pub portal_open : Outs → Bool
portal_open [] = false
portal_open (portal_start ∷ outs) = true
portal_open (portal_stop ∷ outs) = false
portal_open (_ ∷ outs) = portal_open outs

-- Started with the radio at the mesh and no portal open, the provisioning task aborts the program, or
-- ends with the radio given back to the mesh and no portal left open, on every answer of the
-- libraries.
pub gateway_wifi_task-radio :
    (env : Env) (provisioned : Bool) (s : Bridge)
    → yielded s.outs ≡ false
    → portal_open s.outs ≡ false
    → let r = gateway_wifi_task env provisioned s in
      (r.0 ≡ none) ⊎ ((yielded r.1.outs ≡ false) × (portal_open r.1.outs ≡ false))
unfolding gateway_wifi_task provisioning_window
gateway_wifi_task-radio env provisioned s quiet closed = ground arith
