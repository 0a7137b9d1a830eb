-- ===== src/OnoffNode/Shown/Restored.antt =====
-- What a program of esp_ble_mesh/onoff_models/onoff_server/main/main.c has back after a loss of power.
-- Every set message is answered by the server itself.
use esp32_ble_mesh.Base.{
  Bool, List, [], and_right, ap, arith, false, not, true, ◌&&◌, ◌∙◌, ◌∷◌, ◌≡◌, ◌≢◌,
}
use esp32_ble_mesh.OnoffNode.Machine.{Answers, Event, app_main, power_cycle, run, step}
use esp32_ble_mesh.OnoffNode.Persist.Laws.{FlashLaws, View}
use esp32_ble_mesh.OnoffNode.Persist.Reboot.{view-load_node_state}
use esp32_ble_mesh.OnoffNode.Shown.Lit.{Front}
use esp32_ble_mesh.OnoffNode.Shown.Restart.{app_main-front}
use esp32_ble_mesh.OnoffNode.Shown.Survive.{Stored, app_main-Stored, is_unanswered, step-Stored}
use esp32_ble_mesh.OnoffNode.State.{Flash, Node, Sdk}
use esp32_ble_mesh.OnoffNode.Storage.{load_node_state}

abbrev pub all_answered : List Event → Bool
all_answered [] = true
all_answered (e ∷ es) = let rest = all_answered es in not (is_unanswered e) && rest

module _ {F : Type 0} (nvs : Flash F) (laws : FlashLaws nvs) (sdk : Sdk)
    (code : sdk.no_free_pages ≢ 0) where
  run-Stored :
      (es : List Event) (s : Node F) → all_answered es ≡ true → Stored s → Stored (run nvs sdk es s)
  unfolding run
  run-Stored [] s fair stored = stored
  run-Stored (e ∷ es) s fair stored =
      let answered : is_unanswered e ≡ false = ground arith in
      run-Stored es (step nvs sdk e s).1 (and_right _ _ fair)
        (step-Stored nvs sdk e s answered stored)

  -- Whatever happened since the start, a program that starts again after a loss of power reads the
  -- stage and the address that the node had, and once started its server has the on/off state that the
  -- server had and the LED shows it. The flash does not fail and initialises at both starts, and the
  -- server answers set messages itself.
  pub restart_restores :
      (ans again : Answers)
      → ans.flash_init ≡ 0
      → again.flash_init ≡ 0
      → (s : Node F) (es : List Event) → all_answered es ≡ true
      → let t = run nvs sdk es (app_main nvs sdk ans s).1 in
        let read = (load_node_state nvs (power_cycle t)).1 in
        let u = (app_main nvs sdk again (power_cycle t)).1 in
        (read.stage ≡ t.stage)
        × (read.addr ≡ t.addr)
        × (u.server_onoff ≡ t.server_onoff)
        × (u.level ≡ t.server_onoff)
  restart_restores ans again ready ready_again s es fair =
      let start = (app_main nvs sdk ans s).1 in
      let t = run nvs sdk es start in
      let kept = view-load_node_state nvs laws sdk ans ready code s es in
      let stored = run-Stored es start fair (app_main-Stored nvs sdk ans ready code s) in
      let back = ap (λ (v : View F). v.onoff) kept ∙ stored in
      let shown = app_main-front nvs sdk again ready_again code (power_cycle t) in
      (
        ap (λ (v : View F). v.stage) kept,
        ap (λ (v : View F). v.addr) kept,
        ap (λ (f : Front). f.server) shown ∙ back,
        ap (λ (f : Front). f.level) shown ∙ back,
      )
