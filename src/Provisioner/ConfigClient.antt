-- ===== src/Provisioner/ConfigClient.antt =====
-- `example_ble_mesh_config_client_cb` of esp_ble_mesh/provisioner/main/main.c: the configuration of
-- a node, one request after the other, and the retries of a request that timed out.
use esp32_ble_mesh.Base.{Option, if◌then◌else◌, none, not, some, ℕ, ◌==◌}
use esp32_ble_mesh.Provisioner.Nodes.{get_node_info}
use esp32_ble_mesh.Provisioner.Requests.{
  reset_config_retries, send_app_key_add, send_composition_get, send_group_subscription,
  send_model_app_bind, start_get, start_group_subscription, take_config_retry,
}
use esp32_ble_mesh.Provisioner.Stage
use esp32_ble_mesh.Provisioner.State.{
  Env, EspErr, M, Opcode, Provisioner, app_key_add, composition_data_get, get, led_off, maybe,
  model_app_bind, model_sub_add, modify, skip, ◌>>=◌, ◌>>◌,
}
use esp32_ble_mesh.Provisioner.Storage.{store_progress}

pub data ConfigEvent : Type 0 where
  get_state_event set_state_event publish_event timeout_event other_event : ConfigEvent

-- The event's parameters; `status` is the status code in the reply.
pub record ConfigReply : Type 0 where
  pub error_code : ℕ
  pub opcode : Opcode
  pub addr : ℕ
  pub status : ℕ

-- The state of the lamp that is recorded with an error: of the node, if it is known.
abbrev pub known_onoff : Provisioner → Option ℕ → ℕ
known_onoff s none = led_off
known_onoff s (some i) = (s.nodes i).onoff

module _ (env : Env) where
  -- A reply with a status other than 0 is recorded at the present stage.
  store_failure : ℕ → ℕ → ℕ → M (Unit {0})
  store_failure i addr error = do
    s ← get
    store_progress env s.progress_stage addr (s.nodes i).onoff error

  -- The retry counter starts anew, and the stage is recorded.
  accept : ℕ → ℕ → ℕ → M (Unit {0})
  accept i addr stage = do
    reset_config_retries env i
    s ← get
    store_progress env stage addr (s.nodes i).onoff 0

  -- ESP_BLE_MESH_CFG_CLIENT_GET_STATE_EVT.
  unfoldable pub on_config_get : ℕ → ConfigReply → Opcode → M (Unit {0})
  unfolding accept
  on_config_get i reply composition_data_get = do
    accept i reply.addr Stage.composition_received
    send_app_key_add env i
    skip
  on_config_get i reply _ = skip

  -- ESP_BLE_MESH_CFG_CLIENT_SET_STATE_EVT.
  unfoldable pub on_config_set : ℕ → ConfigReply → Opcode → M (Unit {0})
  unfolding accept store_failure
  on_config_set i reply app_key_add =
      if not (reply.status == 0)
      then store_failure i reply.addr reply.status
      else do accept i reply.addr Stage.app_key_added; send_model_app_bind env i; skip
  on_config_set i reply model_app_bind =
      if not (reply.status == 0) then store_failure i reply.addr reply.status else do
        accept i reply.addr Stage.model_bound
        modify (λ s. record s { toggle_after_get_addr = (s.nodes i).unicast })
        start_group_subscription env i
        skip
  on_config_set i reply model_sub_add =
      if not (reply.status == 0)
      then store_failure i reply.addr reply.status
      else do reset_config_retries env i; start_get env i; skip
  on_config_set i reply _ = skip

  -- A request is repeated if a retry is left.
  unfoldable pub retry : ℕ → M EspErr → M (Unit {0})
  retry i request = do taken ← take_config_retry env i; if taken then (do request; skip) else skip

  -- ESP_BLE_MESH_CFG_CLIENT_TIMEOUT_EVT.
  unfoldable pub on_config_timeout : ℕ → Opcode → M (Unit {0})
  unfolding retry
  on_config_timeout i composition_data_get = retry i (send_composition_get env i)
  on_config_timeout i app_key_add = retry i (send_app_key_add env i)
  on_config_timeout i model_app_bind = retry i (send_model_app_bind env i)
  on_config_timeout i model_sub_add = retry i (send_group_subscription env i)
  on_config_timeout i _ = skip

  -- The switch over the events, for a known node. A publication is only logged.
  unfoldable pub on_config_event : ℕ → ConfigEvent → ConfigReply → M (Unit {0})
  on_config_event i get_state_event reply = on_config_get i reply reply.opcode
  on_config_event i set_state_event reply = on_config_set i reply reply.opcode
  on_config_event i timeout_event reply = on_config_timeout i reply.opcode
  on_config_event i _ reply = skip

  -- `example_ble_mesh_config_client_cb`.
  unfoldable pub config_client_cb : ConfigEvent → ConfigReply → M (Unit {0})
  config_client_cb event reply = do
    s ← get
    if not (reply.error_code == 0)
        then store_progress env s.progress_stage reply.addr
            (known_onoff s (get_node_info env s.nodes reply.addr)) reply.error_code
        else maybe (get_node_info env s.nodes reply.addr) skip (λ i. on_config_event i event reply)
