-- ===== src/OnoffNode/Shown/Remembers.antt =====
-- The histories of esp_ble_mesh/onoff_models/onoff_server/main/main.c beside those of the lamp.
use esp32_ble_mesh.Base.{
  List, [], and_left, and_right, ap, arith, false, refl, true, ◌∙◌, ◌∷◌, ◌≡◌, ◌≢◌,
}
use esp32_ble_mesh.OnoffNode.Machine.{Answers, app_main, power_cycle}
use esp32_ble_mesh.OnoffNode.Persist.Laws.{FlashLaws, Kept, View, view}
use esp32_ble_mesh.OnoffNode.Persist.Reboot.{app_main-Kept, load-Kept, step-Kept}
use esp32_ble_mesh.OnoffNode.Shown.Events.{Shown, step-Shown}
use esp32_ble_mesh.OnoffNode.Shown.Lamp.{
  Happening, all_proper, event, happen, lamp, lamp_after, live, power_loss, proper, step-server,
}
use esp32_ble_mesh.OnoffNode.Shown.Lit.{Front, front}
use esp32_ble_mesh.OnoffNode.Shown.Restart.{app_main-front}
use esp32_ble_mesh.OnoffNode.Shown.Survive.{Stored, app_main-Stored, is_unanswered, step-Stored}
use esp32_ble_mesh.OnoffNode.State.{Flash, Node, Sdk}

module _ {F : Type 0} (nvs : Flash F) (laws : FlashLaws nvs) (sdk : Sdk)
    (code : sdk.no_free_pages ≢ 0) where
  -- The flash holds what the node knows, the value to restore is the server's, and the LED shows it.
  abbrev Sound : Node F → Type 0
  Sound s = Kept nvs (view s) × Stored s × Shown (front s)

  started-Sound :
      (ans : Answers) (s : Node F) → ans.flash_init ≡ 0 → Sound (app_main nvs sdk ans s).1
  started-Sound ans s ready = (
    app_main-Kept nvs laws sdk ans ready code s,
    app_main-Stored nvs sdk ans ready code s,
    rw (app_main-front nvs sdk ans ready code s) (refl, refl),
  )

  happen-Sound :
      (h : Happening) (s : Node F)
      → proper sdk h ≡ true
      → Sound s
      → Sound (happen nvs sdk h s) × ((happen nvs sdk h s).server_onoff ≡ lamp h s.server_onoff)
  happen-Sound (event e) s fair (kept, stored, shown) =
      let answered : is_unanswered e ≡ false = ground arith in
      (
        (
          step-Kept nvs laws sdk e s kept,
          step-Stored nvs sdk e s answered stored,
          step-Shown nvs sdk e s (and_right _ _ fair) shown,
        ),
        step-server nvs sdk e s answered,
      )
  happen-Sound (power_loss ans) s fair (kept, stored, shown) =
      let ready : ans.flash_init ≡ 0 = ground arith in
      let lit =
        ap (λ (f : Front). f.server) (app_main-front nvs sdk ans ready code (power_cycle s)) in
      let read = ap (λ (v : View F). v.onoff) (load-Kept nvs laws sdk s kept) in
      (started-Sound ans (power_cycle s) ready, lit ∙ (read ∙ stored))

  live-Sound :
      (hs : List Happening) (s : Node F)
      → all_proper sdk hs ≡ true
      → Sound s
      → Sound (live nvs sdk hs s)
        × ((live nvs sdk hs s).server_onoff ≡ lamp_after hs s.server_onoff)
  unfolding live
  live-Sound [] s fair sound = (sound, refl)
  live-Sound (h ∷ hs) s fair sound =
      let next = happen-Sound h s (and_left _ _ fair) sound in
      let rest = live-Sound hs (happen nvs sdk h s) (and_right _ _ fair) next.0 in
      (rest.0, rest.1 ∙ ap (lamp_after hs) next.1)

  -- A node is a lamp that remembers: through any events and losses of power, its server's state and
  -- what its LED shows are what the set messages and resets alone make of the state that it started
  -- with. The server answers itself, set messages are for this node's one element, and the flash does
  -- not fail and initialises at every start.
  pub node_is_lamp :
      (ans : Answers) (s : Node F) (hs : List Happening)
      → ans.flash_init ≡ 0
      → all_proper sdk hs ≡ true
      → let start = (app_main nvs sdk ans s).1 in
        let t = live nvs sdk hs start in
        (t.server_onoff ≡ lamp_after hs start.server_onoff)
        × (t.level ≡ lamp_after hs start.server_onoff)
  node_is_lamp ans s hs ready fair =
      let start = (app_main nvs sdk ans s).1 in
      let (sound, same) = live-Sound hs start fair (started-Sound ans s ready) in
      (same, sound.2.0 ∙ same)
