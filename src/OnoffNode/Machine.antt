-- ===== src/OnoffNode/Machine.antt =====
-- The callbacks of esp_ble_mesh/onoff_models/onoff_server/main/main.c, and its start.
use esp32_ble_mesh.Base.{Bool, List, [], if◌then◌else◌, ℕ, ◌==◌, ◌∷◌}
use esp32_ble_mesh.OnoffNode.Board.{board_init, board_led_operation}
use esp32_ble_mesh.OnoffNode.Messages.{
  ServerEvent, generic_server_cb, is_set, recv_get_msg, recv_set_msg, state_change, unknown_event,
}
use esp32_ble_mesh.OnoffNode.State.{Flash, M, Node, Place, Sdk, get, modify, skip, ◌>>=◌, ◌>>◌}
use esp32_ble_mesh.OnoffNode.Storage.{load_node_state, reset_node_state, store_node_state}

pub data ProvEvent : Type 0 where
  prov_complete_evt : (addr : ℕ) → ProvEvent
  prov_reset_evt : ProvEvent
  other_prov_evt : ProvEvent

-- The state changes of the configuration server; the element and the fields that are only logged
-- are left out.
pub data ConfigEvent : Type 0 where
  app_key_add : ConfigEvent
  model_app_bind : (element_addr : ℕ) → ConfigEvent
  model_sub_add : ConfigEvent
  other_config : ConfigEvent

-- What reaches the node, with what the stack says of it at that time.
pub data Event : Type 0 where
  prov : ProvEvent → Event
  config : ConfigEvent → Event
  server : Place → ServerEvent → Event

-- `prov_complete`.
unfoldable pub prov_complete : {F : Type 0} → M F (Unit {0})
prov_complete = do s ← get; board_led_operation s.server_onoff

module _ {F : Type 0} (nvs : Flash F) (sdk : Sdk) where
  -- `example_ble_mesh_provisioning_cb`.
  unfoldable pub provisioning_cb : ProvEvent → M F (Unit {0})
  provisioning_cb (prov_complete_evt addr) = do
    prov_complete
    s ← get
    store_node_state nvs sdk 5 addr s.server_onoff
  provisioning_cb prov_reset_evt = reset_node_state nvs
  provisioning_cb other_prov_evt = skip

  -- `example_ble_mesh_config_server_cb`.
  unfoldable pub config_server_cb : ConfigEvent → M F (Unit {0})
  config_server_cb app_key_add = skip
  config_server_cb (model_app_bind element_addr) = do
    s ← get
    store_node_state nvs sdk 6 element_addr s.server_onoff
  config_server_cb model_sub_add = skip
  config_server_cb other_config = skip

  -- What the stack has done to `onoff_server_0` before the callback: with ESP_BLE_MESH_SERVER_AUTO_RSP
  -- a state change reports a value that is already stored.
  abbrev pub before_callback : ServerEvent → M F (Unit {0})
  before_callback (state_change ctx onoff) =
      if is_set ctx.recv_op then modify (λ s. record s { server_onoff = onoff }) else skip
  before_callback (recv_get_msg ctx) = skip
  before_callback (recv_set_msg ctx onoff) = skip
  before_callback unknown_event = skip

  unfoldable pub step : Event → M F (Unit {0})
  step (prov e) = provisioning_cb e
  step (config e) = config_server_cb e
  step (server place e) = do before_callback e; generic_server_cb nvs sdk place e

  unfoldable pub run : List Event → Node F → Node F
  run [] s = s
  run (e ∷ es) s = run es (step e s).1

-- What the calls of the start answer: nvs_flash_init, nvs_flash_erase and nvs_flash_init again,
-- bluetooth_init, esp_ble_mesh_init, esp_ble_mesh_node_prov_enable, esp_ble_mesh_node_is_provisioned
-- and esp_ble_mesh_get_primary_element_address.
pub record Answers : Type 0 where
  pub flash_init : ℕ
  pub flash_erase : ℕ
  pub flash_init_again : ℕ
  pub bluetooth : ℕ
  pub mesh_init : ℕ
  pub prov_enable : ℕ
  pub provisioned : Bool
  pub primary : ℕ

-- `ble_mesh_init`.
unfoldable pub ble_mesh_init : Answers → ℕ
ble_mesh_init ans = if ans.mesh_init == 0 then ans.prov_enable else ans.mesh_init

module _ {F : Type 0} (nvs : Flash F) (sdk : Sdk) (ans : Answers) where
  -- `app_main` once the stack is up.
  abbrev pub after_mesh : M F (Unit {0})
  after_mesh = do
    s ← get
    store_node_state nvs sdk (if ans.provisioned then 5 else 4) ans.primary s.server_onoff

  -- `app_main` from bluetooth_init on.
  unfoldable pub start_radio : M F (Unit {0})
  start_radio =
      if ans.bluetooth == 0
      then (do
        s ← get
        store_node_state nvs sdk 3 s.addr s.restored_onoff
        if ble_mesh_init ans == 0 then after_mesh else skip)
      else skip

  -- `app_main` up to bluetooth_init.
  unfoldable pub restore_light : M F (Unit {0})
  restore_light = do
    load_node_state nvs
    modify (λ s. record s { server_onoff = s.restored_onoff })
    s ← get
    store_node_state nvs sdk 1 s.addr s.restored_onoff
    board_init
    s ← get
    board_led_operation s.restored_onoff
    s ← get
    store_node_state nvs sdk 2 s.addr s.restored_onoff

  abbrev pub start_node : M F (Unit {0})
  start_node = do restore_light; start_radio

  abbrev format_flash : M F (Unit {0})
  format_flash = modify (λ s. record s { flash = nvs.format s.flash })

  -- `app_main`; where ESP_ERROR_CHECK aborts the program, nothing more.
  unfoldable pub app_main : M F (Unit {0})
  app_main =
      if ans.flash_init == sdk.no_free_pages
      then (if ans.flash_erase == 0
          then (do format_flash; if ans.flash_init_again == 0 then start_node else skip)
          else skip)
      else (if ans.flash_init == 0 then start_node else skip)

-- The static variables of a program that starts, on a flash that holds what it held.
abbrev pub power_cycle : {F : Type 0} → Node F → Node F
power_cycle s = record {
  stage = 0;
  addr = 0;
  restored_onoff = 0;
  server_onoff = 0;
  previous = 0;
  level = 0;
  flash = s.flash;
  outs = s.outs;
}
