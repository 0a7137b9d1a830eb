-- ===== src/OnoffNode/Shown/Lamp.antt =====
-- The node of esp_ble_mesh/onoff_models/onoff_server/main/main.c as a lamp that remembers its state.
use esp32_ble_mesh.Base.{
  Bool, Bool-cases, List, [], ap, false, if◌then◌else◌, inl, inr, not, refl, true, ℕ, ◌&&◌, ◌==◌,
  ◌∙◌, ◌∷◌, ◌≡◌,
}
use esp32_ble_mesh.OnoffNode.Board.{board_led_operation}
use esp32_ble_mesh.OnoffNode.Machine.{
  Answers, Event, app_key_add, app_main, config, config_server_cb, model_app_bind, model_sub_add,
  other_config, other_prov_evt, power_cycle, prov, prov_complete, prov_complete_evt, prov_reset_evt,
  provisioning_cb, server, step,
}
use esp32_ble_mesh.OnoffNode.Messages.{
  change_led_state, generic_server_cb, handle_gen_onoff_msg, is_get, is_set, recv_get_msg,
  recv_set_msg, send_status, state_change, unknown_event,
}
use esp32_ble_mesh.OnoffNode.Shown.Events.{event_reaches}
use esp32_ble_mesh.OnoffNode.Shown.Lit.{Front, front-store, write_back-front}
use esp32_ble_mesh.OnoffNode.Shown.Server.{server-board_led_operation, server-change_led_state}
use esp32_ble_mesh.OnoffNode.Shown.Survive.{is_unanswered}
use esp32_ble_mesh.OnoffNode.State.{
  Context, Flash, Node, Opcode, Place, Sdk, gen_onoff_get, gen_onoff_set, gen_onoff_set_unack,
  other_opcode, skip,
}
use esp32_ble_mesh.OnoffNode.Storage.{reset_node_state, store_node_state}

-- What happens to a node: an event, or a loss of power and the start after it.
pub data Happening : Type 0 where
  event : Event → Happening
  power_loss : Answers → Happening

-- The value that a set message asks for, or the one before.
abbrev pub set_to : Bool → ℕ → ℕ → ℕ
set_to is_set onoff old = if is_set then onoff else old

-- The lamp: a set message sets it, a reset switches it off, and nothing else changes it, a loss of
-- power included.
abbrev pub lamp : Happening → ℕ → ℕ
lamp (event (prov (prov_complete_evt addr))) v = v
lamp (event (prov prov_reset_evt)) v = 0
lamp (event (prov other_prov_evt)) v = v
lamp (event (config e)) v = v
lamp (event (server place (state_change ctx onoff))) v = set_to (is_set ctx.recv_op) onoff v
lamp (event (server place (recv_get_msg ctx))) v = v
lamp (event (server place (recv_set_msg ctx onoff))) v = v
lamp (event (server place unknown_event)) v = v
lamp (power_loss ans) v = v

abbrev pub lamp_after : List Happening → ℕ → ℕ
lamp_after [] v = v
lamp_after (h ∷ hs) v = lamp_after hs (lamp h v)

-- A server that answers itself gets no set message to answer, the messages that change it are for this
-- node, and the flash initialises at a start.
abbrev pub proper : Sdk → Happening → Bool
proper sdk (event e) = not (is_unanswered e) && event_reaches sdk e
proper sdk (power_loss ans) = ans.flash_init == 0

abbrev pub all_proper : Sdk → List Happening → Bool
all_proper sdk [] = true
all_proper sdk (h ∷ hs) = let rest = all_proper sdk hs in proper sdk h && rest

module _ {F : Type 0} (nvs : Flash F) (sdk : Sdk) where
  abbrev pub happen : Happening → Node F → Node F
  happen (event e) s = (step nvs sdk e s).1
  happen (power_loss ans) s = (app_main nvs sdk ans (power_cycle s)).1

  unfoldable pub live : List Happening → Node F → Node F
  live [] s = s
  live (h ∷ hs) s = live hs (happen h s)

  store-server :
      (stage addr onoff : ℕ) (s : Node F)
      → (store_node_state nvs sdk stage addr onoff s).1.server_onoff ≡ s.server_onoff
  store-server stage addr onoff s =
      ap (λ (f : Front). f.server) (front-store nvs sdk stage addr onoff s)

  reset-server : (s : Node F) → (reset_node_state nvs s).1.server_onoff ≡ 0
  unfolding reset_node_state
  reset-server s =
      let cleared : Node F = record s {
        stage = 0;
        addr = 0;
        restored_onoff = 0;
        server_onoff = 0;
      } in
      let dark = (board_led_operation 0 cleared).1 in
      ap (λ (f : Front). f.server)
        (write_back-front (nvs.open_write dark.flash) (λ (f : F). nvs.commit (nvs.erase_all f))
          dark)
      ∙ server-board_led_operation 0 cleared

  state_change-server :
      (place : Place) (ctx : Context) (onoff : ℕ) (s : Node F)
      → (step nvs sdk (server place (state_change ctx onoff)) s).1.server_onoff
        ≡ set_to (is_set ctx.recv_op) onoff s.server_onoff
  unfolding step generic_server_cb
  state_change-server place ctx onoff s = elim (Bool-cases (is_set ctx.recv_op)) [
    | inl set ↦
        let told : Node F = record s { server_onoff = onoff } in
        rw set (
          store-server 7 place.primary onoff (change_led_state sdk place ctx onoff told).1
          ∙ server-change_led_state sdk place ctx onoff told)
    | inr rest ↦ rw rest refl
  ]

  get-server :
      (place : Place) (ctx : Context) (op : Opcode) (s : Node F)
      → ((if is_get op then handle_gen_onoff_msg sdk place ctx op 0 else skip) s).1.server_onoff
        ≡ s.server_onoff
  unfolding handle_gen_onoff_msg send_status
  get-server place ctx gen_onoff_get s = refl
  get-server place ctx gen_onoff_set s = refl
  get-server place ctx gen_onoff_set_unack s = refl
  get-server place ctx other_opcode s = refl

  pub step-server :
      (e : Event) (s : Node F)
      → is_unanswered e ≡ false
      → (step nvs sdk e s).1.server_onoff ≡ lamp (event e) s.server_onoff
  unfolding step provisioning_cb config_server_cb generic_server_cb prov_complete
  step-server (prov (prov_complete_evt addr)) s h =
      let lit = (board_led_operation s.server_onoff s).1 in
      store-server 5 addr lit.server_onoff lit ∙ server-board_led_operation s.server_onoff s
  step-server (prov prov_reset_evt) s h = reset-server s
  step-server (prov other_prov_evt) s h = refl
  step-server (config app_key_add) s h = refl
  step-server (config (model_app_bind element_addr)) s h =
      store-server 6 element_addr s.server_onoff s
  step-server (config model_sub_add) s h = refl
  step-server (config other_config) s h = refl
  step-server (server place (state_change ctx onoff)) s h = state_change-server place ctx onoff s
  step-server (server place (recv_get_msg ctx)) s h = get-server place ctx ctx.recv_op s
  step-server (server place (recv_set_msg ctx onoff)) s h = rw h refl
  step-server (server place unknown_event) s h = refl
