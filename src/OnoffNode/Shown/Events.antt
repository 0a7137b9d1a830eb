-- ===== src/OnoffNode/Shown/Events.antt =====
-- The LED and the server of esp_ble_mesh/onoff_models/onoff_server/main/main.c through the callbacks.
use esp32_ble_mesh.Base.{
  Bool, Bool-cases, arith, false, if◌then◌else◌, inl, inr, not, refl, sym, true, ℕ, ◌||◌, ◌∙◌, ◌∷◌,
  ◌≡◌,
}
use esp32_ble_mesh.OnoffNode.Board.{board_led_operation}
use esp32_ble_mesh.OnoffNode.Machine.{
  Event, app_key_add, config, config_server_cb, model_app_bind, model_sub_add, other_config,
  other_prov_evt, prov, prov_complete, prov_complete_evt, prov_reset_evt, provisioning_cb, server,
  step,
}
use esp32_ble_mesh.OnoffNode.Messages.{
  change_led_state, generic_server_cb, handle_gen_onoff_msg, handle_set, is_get, is_set,
  recv_get_msg, recv_set_msg, send_status, state_change, unknown_event,
}
use esp32_ble_mesh.OnoffNode.Shown.Lit.{
  Front, board_led_operation-front, change_led_state-front, front, front-store, reaches,
  write_back-front,
}
use esp32_ble_mesh.OnoffNode.State.{
  Context, Flash, M, Node, Opcode, Place, Sdk, gen_onoff_get, gen_onoff_set, gen_onoff_set_unack,
  other_opcode, published_status, sent_status, skip,
}
use esp32_ble_mesh.OnoffNode.Storage.{reset_node_state, store_node_state}

-- The server event concerns this node's element where it can change the LED.
abbrev pub event_reaches : Sdk → Event → Bool
event_reaches sdk (prov e) = true
event_reaches sdk (config e) = true
event_reaches sdk (server place (state_change ctx onoff)) =
    not (is_set ctx.recv_op) || reaches sdk place ctx
event_reaches sdk (server place (recv_get_msg ctx)) = true
event_reaches sdk (server place (recv_set_msg ctx onoff)) =
    not (is_set ctx.recv_op) || reaches sdk place ctx
event_reaches sdk (server place unknown_event) = true

-- The LED shows the state of the server, and `led_state` knows what it shows.
abbrev pub Shown : Front → Type 0
Shown f = (f.level ≡ f.server) × (f.previous ≡ f.server)

module _ {F : Type 0} (nvs : Flash F) (sdk : Sdk) where
  store-Shown :
      (stage addr onoff : ℕ) (s : Node F)
      → Shown (front s)
      → Shown (front (store_node_state nvs sdk stage addr onoff s).1)
  store-Shown stage addr onoff s h = rw (front-store nvs sdk stage addr onoff s) h

  -- A set message, once the server has the value.
  change-Shown :
      (place : Place) (ctx : Context) (s : Node F)
      → reaches sdk place ctx ≡ true
      → s.previous ≡ s.level
      → Shown (front (change_led_state sdk place ctx s.server_onoff s).1)
  change-Shown place ctx s h known =
      rw (change_led_state-front sdk place ctx s.server_onoff s h known) (refl, refl)

  handle-Shown :
      (place : Place) (ctx : Context) (op : Opcode) (onoff : ℕ) (s : Node F)
      → (not (is_set op) || reaches sdk place ctx) ≡ true
      → Shown (front s)
      → Shown (front (handle_gen_onoff_msg sdk place ctx op onoff s).1)
  unfolding handle_gen_onoff_msg handle_set send_status
  handle-Shown place ctx gen_onoff_get onoff s h (level, previous) = (level, previous)
  handle-Shown place ctx gen_onoff_set onoff s h (level, previous) =
      change-Shown place ctx
        (record s {
          server_onoff = onoff;
          outs = published_status onoff ∷ (sent_status onoff ∷ s.outs);
        })
        h (previous ∙ sym level)
  handle-Shown place ctx gen_onoff_set_unack onoff s h (level, previous) =
      change-Shown place ctx
        (record s { server_onoff = onoff; outs = published_status onoff ∷ s.outs }) h
        (previous ∙ sym level)
  handle-Shown place ctx other_opcode onoff s h (level, previous) = (level, previous)

  branch-Shown :
      (b : Bool) (m : M F (Unit {0})) (s : Node F)
      → Shown (front (m s).1)
      → Shown (front s)
      → Shown (front ((if b then m else skip) s).1)
  branch-Shown true m s yes_case no_case = yes_case
  branch-Shown false m s yes_case no_case = no_case

  get-Shown :
      (place : Place) (ctx : Context) (op : Opcode) (s : Node F)
      → Shown (front s)
      → Shown (front ((if is_get op then handle_gen_onoff_msg sdk place ctx op 0 else skip) s).1)
  unfolding handle_gen_onoff_msg send_status
  get-Shown place ctx gen_onoff_get s (level, previous) = (level, previous)
  get-Shown place ctx gen_onoff_set s shown = shown
  get-Shown place ctx gen_onoff_set_unack s shown = shown
  get-Shown place ctx other_opcode s shown = shown

  state_change-Shown :
      (place : Place) (ctx : Context) (onoff : ℕ) (s : Node F)
      → (not (is_set ctx.recv_op) || reaches sdk place ctx) ≡ true
      → Shown (front s)
      → Shown (front (step nvs sdk (server place (state_change ctx onoff)) s).1)
  unfolding step generic_server_cb
  state_change-Shown place ctx onoff s h (level, previous) =
      elim (Bool-cases (is_set ctx.recv_op)) [
        | inl set ↦
            let told : Node F = record s { server_onoff = onoff } in
            rw set (
              store-Shown 7 place.primary onoff (change_led_state sdk place ctx onoff told).1
                (change-Shown place ctx told (ground arith) (previous ∙ sym level)))
        | inr rest ↦ rw rest (level, previous)
      ]

  reset-Shown : (s : Node F) → s.previous ≡ s.level → Shown (front (reset_node_state nvs s).1)
  unfolding reset_node_state
  reset-Shown s h =
      let cleared : Node F = record s {
        stage = 0;
        addr = 0;
        restored_onoff = 0;
        server_onoff = 0;
      } in
      let dark = (board_led_operation 0 cleared).1 in
      rw
        (
          write_back-front (nvs.open_write dark.flash) (λ (f : F). nvs.commit (nvs.erase_all f))
              dark,
          board_led_operation-front 0 cleared h,
        )
        (refl, refl)

  pub step-Shown :
      (e : Event) (s : Node F)
      → event_reaches sdk e ≡ true
      → Shown (front s)
      → Shown (front (step nvs sdk e s).1)
  unfolding step provisioning_cb config_server_cb generic_server_cb prov_complete
  step-Shown (prov (prov_complete_evt addr)) s h (level, previous) =
      let lit = (board_led_operation s.server_onoff s).1 in
      store-Shown 5 addr lit.server_onoff lit
        (rw (board_led_operation-front s.server_onoff s (previous ∙ sym level)) (refl, refl))
  step-Shown (prov prov_reset_evt) s h (level, previous) = reset-Shown s (previous ∙ sym level)
  step-Shown (prov other_prov_evt) s h shown = shown
  step-Shown (config app_key_add) s h shown = shown
  step-Shown (config (model_app_bind element_addr)) s h shown =
      store-Shown 6 element_addr s.server_onoff s shown
  step-Shown (config model_sub_add) s h shown = shown
  step-Shown (config other_config) s h shown = shown
  step-Shown (server place (state_change ctx onoff)) s h shown =
      state_change-Shown place ctx onoff s h shown
  step-Shown (server place (recv_get_msg ctx)) s h shown = get-Shown place ctx ctx.recv_op s shown
  step-Shown (server place (recv_set_msg ctx onoff)) s h shown =
      branch-Shown (is_set ctx.recv_op) (handle_gen_onoff_msg sdk place ctx ctx.recv_op onoff) s
        (handle-Shown place ctx ctx.recv_op onoff s h shown) shown
  step-Shown (server place unknown_event) s h shown = shown
