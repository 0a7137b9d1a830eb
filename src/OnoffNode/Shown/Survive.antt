-- ===== src/OnoffNode/Shown/Survive.antt =====
-- The value that esp_ble_mesh/onoff_models/onoff_server/main/main.c restores, beside the server's.
use esp32_ble_mesh.Base.{
  Bool, Bool-cases, ap, arith, false, if◌then◌else◌, inl, inr, refl, sym, true, ℕ, ◌==◌, ◌∙◌, ◌≡◌,
  ◌≢◌,
}
use esp32_ble_mesh.OnoffNode.Board.{board_init, board_led_operation, board_led_write}
use esp32_ble_mesh.OnoffNode.Machine.{
  Answers, Event, after_mesh, app_key_add, app_main, ble_mesh_init, config, config_server_cb,
  model_app_bind, model_sub_add, other_config, other_prov_evt, prov, prov_complete,
  prov_complete_evt, prov_reset_evt, provisioning_cb, restore_light, server, start_radio, step,
}
use esp32_ble_mesh.OnoffNode.Messages.{
  change_led_state, generic_server_cb, handle_gen_onoff_msg, is_get, is_set, recv_get_msg,
  recv_set_msg, send_status, state_change, unknown_event,
}
use esp32_ble_mesh.OnoffNode.Persist.Frames.{view-board_led_operation}
use esp32_ble_mesh.OnoffNode.Persist.Laws.{View}
use esp32_ble_mesh.OnoffNode.Shown.Lit.{
  Front, front-store, store-restored, write_back-front, write_back-restored,
}
use esp32_ble_mesh.OnoffNode.Shown.Server.{server-board_led_operation, server-change_led_state}
use esp32_ble_mesh.OnoffNode.State.{
  Context, Flash, M, Node, Opcode, Place, Sdk, gen_onoff_get, gen_onoff_set, gen_onoff_set_unack,
  other_opcode, skip,
}
use esp32_ble_mesh.OnoffNode.Storage.{load_node_state, reset_node_state, store_node_state}

-- A set message that the stack hands over unanswered, which it does only for a server that answers
-- itself.
abbrev pub is_unanswered : Event → Bool
is_unanswered (prov e) = false
is_unanswered (config e) = false
is_unanswered (server place (state_change ctx onoff)) = false
is_unanswered (server place (recv_get_msg ctx)) = false
is_unanswered (server place (recv_set_msg ctx onoff)) = is_set ctx.recv_op
is_unanswered (server place unknown_event) = false

-- The value to restore is that of the server.
abbrev pub Stored : {F : Type 0} → Node F → Type 0
Stored s = s.restored_onoff ≡ s.server_onoff

module _ {F : Type 0} (nvs : Flash F) (sdk : Sdk) where
  store-Stored :
      (stage addr onoff : ℕ) (s : Node F)
      → onoff ≡ s.server_onoff
      → Stored (store_node_state nvs sdk stage addr onoff s).1
  store-Stored stage addr onoff s h =
      store-restored nvs sdk stage addr onoff s
      ∙ (h ∙ sym (ap (λ (f : Front). f.server) (front-store nvs sdk stage addr onoff s)))

  reset-Stored : (s : Node F) → Stored (reset_node_state nvs s).1
  unfolding reset_node_state
  reset-Stored s =
      let cleared : Node F = record s {
        stage = 0;
        addr = 0;
        restored_onoff = 0;
        server_onoff = 0;
      } in
      let dark = (board_led_operation 0 cleared).1 in
      let erase : F → F = λ f. nvs.commit (nvs.erase_all f) in
      let opened = nvs.open_write dark.flash in
      write_back-restored opened erase dark
      ∙ (ap (λ (v : View F). v.onoff) (view-board_led_operation 0 cleared)
          ∙ sym (
              ap (λ (f : Front). f.server) (write_back-front opened erase dark)
              ∙ server-board_led_operation 0 cleared))

  state_change-Stored :
      (place : Place) (ctx : Context) (onoff : ℕ) (s : Node F)
      → Stored s
      → Stored (step nvs sdk (server place (state_change ctx onoff)) s).1
  unfolding step generic_server_cb
  state_change-Stored place ctx onoff s h = elim (Bool-cases (is_set ctx.recv_op)) [
    | inl set ↦
        let told : Node F = record s { server_onoff = onoff } in
        rw set (
          store-Stored 7 place.primary onoff (change_led_state sdk place ctx onoff told).1
            (sym (server-change_led_state sdk place ctx onoff told)))
    | inr rest ↦ rw rest h
  ]

  get-Stored :
      (place : Place) (ctx : Context) (op : Opcode) (s : Node F)
      → Stored s
      → Stored ((if is_get op then handle_gen_onoff_msg sdk place ctx op 0 else skip) s).1
  unfolding handle_gen_onoff_msg send_status
  get-Stored place ctx gen_onoff_get s h = h
  get-Stored place ctx gen_onoff_set s h = h
  get-Stored place ctx gen_onoff_set_unack s h = h
  get-Stored place ctx other_opcode s h = h

  pub step-Stored :
      (e : Event) (s : Node F) → is_unanswered e ≡ false → Stored s → Stored (step nvs sdk e s).1
  unfolding step provisioning_cb config_server_cb generic_server_cb prov_complete
  step-Stored (prov (prov_complete_evt addr)) s h stored =
      let lit = (board_led_operation s.server_onoff s).1 in
      store-Stored 5 addr lit.server_onoff lit refl
  step-Stored (prov prov_reset_evt) s h stored = reset-Stored s
  step-Stored (prov other_prov_evt) s h stored = stored
  step-Stored (config app_key_add) s h stored = stored
  step-Stored (config (model_app_bind element_addr)) s h stored =
      store-Stored 6 element_addr s.server_onoff s refl
  step-Stored (config model_sub_add) s h stored = stored
  step-Stored (config other_config) s h stored = stored
  step-Stored (server place (state_change ctx onoff)) s h stored =
      state_change-Stored place ctx onoff s stored
  step-Stored (server place (recv_get_msg ctx)) s h stored =
      get-Stored place ctx ctx.recv_op s stored
  step-Stored (server place (recv_set_msg ctx onoff)) s h stored = rw h stored
  step-Stored (server place unknown_event) s h stored = stored

  branch-Stored :
      (b : Bool) (m : M F (Unit {0})) (s : Node F)
      → Stored (m s).1
      → Stored s
      → Stored ((if b then m else skip) s).1
  branch-Stored true m s yes_case no_case = yes_case
  branch-Stored false m s yes_case no_case = no_case

  radio-Stored : (ans : Answers) (s : Node F) → Stored s → Stored (start_radio nvs sdk ans s).1
  unfolding start_radio
  radio-Stored ans s h =
      let third = (store_node_state nvs sdk 3 s.addr s.restored_onoff s).1 in
      let up = store-Stored 3 s.addr s.restored_onoff s h in
      branch-Stored (ans.bluetooth == 0)
        (λ t.
          (if ble_mesh_init ans == 0 then after_mesh nvs sdk ans else skip)
            (store_node_state nvs sdk 3 t.addr t.restored_onoff t).1)
        s
        (branch-Stored (ble_mesh_init ans == 0) (after_mesh nvs sdk ans) third
          (store-Stored (if ans.provisioned then 5 else 4) ans.primary third.server_onoff third
            refl)
          up)
        h

  restore-Stored : (ans : Answers) (s : Node F) → Stored (restore_light nvs sdk ans s).1
  unfolding restore_light board_init board_led_write
  restore-Stored ans s =
      let loaded = (load_node_state nvs s).1 in
      let told : Node F = record loaded { server_onoff = loaded.restored_onoff } in
      let one = (store_node_state nvs sdk 1 told.addr told.restored_onoff told).1 in
      let dark = (board_init one).1 in
      let lit = (board_led_operation dark.restored_onoff dark).1 in
      store-Stored 2 lit.addr lit.restored_onoff lit (
        ap (λ (v : View F). v.onoff) (view-board_led_operation dark.restored_onoff dark)
        ∙ (store-Stored 1 told.addr told.restored_onoff told refl
            ∙ sym (server-board_led_operation dark.restored_onoff dark)))

  pub app_main-Stored :
      (ans : Answers)
      → ans.flash_init ≡ 0
      → sdk.no_free_pages ≢ 0
      → (s : Node F) → Stored (app_main nvs sdk ans s).1
  unfolding app_main
  app_main-Stored ans ready code s =
      let other : (ans.flash_init == sdk.no_free_pages) ≡ false = ground arith in
      let fine : (ans.flash_init == 0) ≡ true = ground arith in
      rw (other, fine) (radio-Stored ans (restore_light nvs sdk ans s).1 (restore-Stored ans s))
