-- ===== src/OnoffNode/Persist/Reboot.antt =====
-- A restart of esp_ble_mesh/onoff_models/onoff_server/main/main.c after any history.
use esp32_ble_mesh.Base.{List, [], arith, false, refl, true, ◌==◌, ◌∷◌, ◌≡◌, ◌≢◌}
use esp32_ble_mesh.OnoffNode.Board.{board_led_operation}
use esp32_ble_mesh.OnoffNode.Machine.{
  Answers, Event, after_mesh, app_key_add, app_main, before_callback, ble_mesh_init, config,
  config_server_cb, model_app_bind, model_sub_add, other_config, other_prov_evt, power_cycle, prov,
  prov_complete_evt, prov_reset_evt, provisioning_cb, restore_light, run, server, start_radio, step,
}
use esp32_ble_mesh.OnoffNode.Messages.{
  ServerEvent, change_led_state, generic_server_cb, is_get, is_set, recv_get_msg, recv_set_msg,
  state_change, unknown_event,
}
use esp32_ble_mesh.OnoffNode.Persist.Frames.{
  view-before_callback, view-board_led_operation, view-handle_gen_onoff_msg,
}
use esp32_ble_mesh.OnoffNode.Persist.Laws.{
  FlashLaws, Kept, branch-Kept, erase_flash-Kept, store-Kept, view,
}
use esp32_ble_mesh.OnoffNode.State.{Flash, Node, Place, Sdk, skip}
use esp32_ble_mesh.OnoffNode.Storage.{load_node_state, reset_node_state, store_node_state}

module _ {F : Type 0} (nvs : Flash F) (laws : FlashLaws nvs) (sdk : Sdk) where
  reset-Kept : (s : Node F) → Kept nvs (view (reset_node_state nvs s).1)
  unfolding reset_node_state
  reset-Kept s =
      let cleared : Node F = record s {
        stage = 0;
        addr = 0;
        restored_onoff = 0;
        server_onoff = 0;
      } in
      erase_flash-Kept nvs laws (board_led_operation 0 cleared).1
        (view-board_led_operation 0 cleared)

  server_cb-Kept :
      (place : Place) (e : ServerEvent) (s : Node F)
      → Kept nvs (view s)
      → Kept nvs (view (generic_server_cb nvs sdk place e s).1)
  unfolding generic_server_cb
  server_cb-Kept place (state_change ctx onoff) s h =
      branch-Kept nvs laws (is_set ctx.recv_op) _ skip s
        (store-Kept nvs laws sdk 7 place.primary onoff (change_led_state sdk place ctx onoff s).1) h
  server_cb-Kept place (recv_get_msg ctx) s h =
      branch-Kept nvs laws (is_get ctx.recv_op) _ skip s
        (rw (view-handle_gen_onoff_msg sdk place ctx ctx.recv_op 0 s) h) h
  server_cb-Kept place (recv_set_msg ctx onoff) s h =
      branch-Kept nvs laws (is_set ctx.recv_op) _ skip s
        (rw (view-handle_gen_onoff_msg sdk place ctx ctx.recv_op onoff s) h) h
  server_cb-Kept place unknown_event s h = h

  pub step-Kept :
      (e : Event) (s : Node F) → Kept nvs (view s) → Kept nvs (view (step nvs sdk e s).1)
  unfolding step provisioning_cb config_server_cb
  step-Kept (prov (prov_complete_evt addr)) s h = store-Kept nvs laws sdk 5 addr _ _
  step-Kept (prov prov_reset_evt) s h = reset-Kept s
  step-Kept (prov other_prov_evt) s h = h
  step-Kept (config app_key_add) s h = h
  step-Kept (config (model_app_bind element_addr)) s h = store-Kept nvs laws sdk 6 element_addr _ _
  step-Kept (config model_sub_add) s h = h
  step-Kept (config other_config) s h = h
  step-Kept (server place e) s h =
      server_cb-Kept place e (before_callback nvs sdk e s).1
        (rw (view-before_callback nvs sdk e s) h)

  pub run-Kept :
      (es : List Event) (s : Node F) → Kept nvs (view s) → Kept nvs (view (run nvs sdk es s))
  unfolding run
  run-Kept [] s h = h
  run-Kept (e ∷ es) s h = run-Kept es (step nvs sdk e s).1 (step-Kept e s h)

  radio-Kept :
      (ans : Answers) (s : Node F)
      → Kept nvs (view s)
      → Kept nvs (view (start_radio nvs sdk ans s).1)
  unfolding start_radio
  radio-Kept ans s h =
      let third = store_node_state nvs sdk 3 s.addr s.restored_onoff in
      branch-Kept nvs laws (ans.bluetooth == 0) _ skip s
        (branch-Kept nvs laws (ble_mesh_init ans == 0) (after_mesh nvs sdk ans) skip (third s).1
          (store-Kept nvs laws sdk _ _ _ _) (store-Kept nvs laws sdk 3 s.addr s.restored_onoff s))
        h

  restore-Kept : (ans : Answers) (s : Node F) → Kept nvs (view (restore_light nvs sdk ans s).1)
  unfolding restore_light
  restore-Kept ans s = store-Kept nvs laws sdk 2 _ _ _

  pub app_main-Kept :
      (ans : Answers)
      → ans.flash_init ≡ 0
      → sdk.no_free_pages ≢ 0
      → (s : Node F) → Kept nvs (view (app_main nvs sdk ans s).1)
  unfolding app_main
  app_main-Kept ans ready code s =
      let other : (ans.flash_init == sdk.no_free_pages) ≡ false = ground arith in
      let fine : (ans.flash_init == 0) ≡ true = ground arith in
      rw (other, fine) (radio-Kept ans _ (restore-Kept ans s))

  pub load-Kept :
      (s : Node F) → Kept nvs (view s) → view (load_node_state nvs (power_cycle s)).1 ≡ view s
  unfolding load_node_state
  load-Kept s (open_, stage, addr, onoff) = rw (open_, stage, addr, onoff) refl

  -- After any history, a program that starts again reads what the one before it kept.
  pub view-load_node_state :
      (ans : Answers)
      → ans.flash_init ≡ 0
      → sdk.no_free_pages ≢ 0
      → (s : Node F) (es : List Event)
      → let t = run nvs sdk es (app_main nvs sdk ans s).1 in
        view (load_node_state nvs (power_cycle t)).1 ≡ view t
  view-load_node_state ans ready code s es =
      let start = (app_main nvs sdk ans s).1 in
      load-Kept (run nvs sdk es start) (run-Kept es start (app_main-Kept ans ready code s))
