-- ===== src/OnoffNode/Shown/Restart.antt =====
-- The light of esp_ble_mesh/onoff_models/onoff_server/main/main.c after a start and after a loss of
-- power.
use esp32_ble_mesh.Base.{ap, arith, false, refl, true, ◌==◌, ◌∙◌, ◌≡◌, ◌≢◌}
use esp32_ble_mesh.OnoffNode.Board.{board_init, board_led_operation, board_led_write}
use esp32_ble_mesh.OnoffNode.Machine.{
  Answers, after_mesh, app_main, ble_mesh_init, restore_light, start_radio,
}
use esp32_ble_mesh.OnoffNode.Shown.Lit.{
  Front, all_at, board_led_operation-front, branch-front, front, front-store, store-restored,
}
use esp32_ble_mesh.OnoffNode.State.{Flash, Node, Sdk, skip}
use esp32_ble_mesh.OnoffNode.Storage.{load_node_state, store_node_state}

module _ {F : Type 0} (nvs : Flash F) (sdk : Sdk) where
  radio-front : (ans : Answers) (s : Node F) → front (start_radio nvs sdk ans s).1 ≡ front s
  unfolding start_radio
  radio-front ans s =
      let third = (store_node_state nvs sdk 3 s.addr s.restored_onoff s).1 in
      let up = front-store nvs sdk 3 s.addr s.restored_onoff s in
      branch-front (ans.bluetooth == 0) _ skip s (front s)
        (branch-front (ble_mesh_init ans == 0) (after_mesh nvs sdk ans) skip third (front s)
          (front-store nvs sdk _ ans.primary third.server_onoff third ∙ up) up)
        refl

  -- The light that a start restores is the one that it reads.
  restore-front :
      (ans : Answers) (s : Node F)
      → front (restore_light nvs sdk ans s).1 ≡ all_at (load_node_state nvs s).1.restored_onoff
  unfolding restore_light board_init board_led_write
  restore-front ans s =
      let loaded = (load_node_state nvs s).1 in
      let told : Node F = record loaded { server_onoff = loaded.restored_onoff } in
      let one = (store_node_state nvs sdk 1 told.addr told.restored_onoff told).1 in
      let dark = (board_init one).1 in
      let lit = (board_led_operation dark.restored_onoff dark).1 in
      let server : one.server_onoff ≡ loaded.restored_onoff =
        ap (λ (f : Front). f.server) (front-store nvs sdk 1 told.addr told.restored_onoff told) in
      let restored = store-restored nvs sdk 1 told.addr told.restored_onoff told in
      let shown : record {
        server = one.server_onoff;
        previous = one.restored_onoff;
        level = one.restored_onoff;
      }
          ≡ all_at loaded.restored_onoff =
        rw (server, restored) refl in
      front-store nvs sdk 2 lit.addr lit.restored_onoff lit
      ∙ (board_led_operation-front dark.restored_onoff dark refl ∙ shown)

  pub app_main-front :
      (ans : Answers)
      → ans.flash_init ≡ 0
      → sdk.no_free_pages ≢ 0
      → (s : Node F)
      → front (app_main nvs sdk ans s).1 ≡ all_at (load_node_state nvs s).1.restored_onoff
  unfolding app_main
  app_main-front ans ready code s =
      let other : (ans.flash_init == sdk.no_free_pages) ≡ false = ground arith in
      let fine : (ans.flash_init == 0) ≡ true = ground arith in
      rw (other, fine) (radio-front ans (restore_light nvs sdk ans s).1 ∙ restore-front ans s)
