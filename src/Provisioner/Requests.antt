-- ===== src/Provisioner/Requests.antt =====
-- The requests that esp_ble_mesh/provisioner/main/main.c sends to a node, and the retry counter of
-- the configuration requests. A pointer to a node is its index `i` in the table. The clients' model
-- pointers are set before any request is sent, so `example_ble_mesh_set_msg_common` does not fail.
use esp32_ble_mesh.Base.{Bool, false, if◌then◌else◌, leb, ltb, not, true, update, ℕ, ◌%◌, ◌+◌, ◌==◌}
use esp32_ble_mesh.Provisioner.State.{
  Common, Env, EspErr, M, Model, Opcode, Provisioner, app_bind, app_key_add, comp_data_page_0,
  composition_data_get, composition_get, config_client, farmely_group_addr, farmely_max_retries,
  gen_onoff_get, gen_onoff_set, get, invalid_arg, key_add, model_app_bind, model_sub_add, modify,
  msg_send_ttl, msg_timeout, onoff_client, onoff_get, onoff_set, perform, pure, sent, skip, sub_add,
  ◌>>=◌, ◌>>◌,
}

-- `on` as a `uint8_t`, and a `uint8_t` passed as a `bool`.
abbrev pub to_byte : Bool → ℕ
to_byte true = 1
to_byte false = 0

abbrev pub to_bool : ℕ → Bool
to_bool n = not (n == 0)

-- `example_ble_mesh_set_msg_common`.
abbrev pub set_msg_common : Provisioner → ℕ → Model → Opcode → Common
set_msg_common s i model opcode = record {
  opcode = opcode;
  model = model;
  net_idx = s.prov_key.net_idx;
  app_idx = s.prov_key.app_idx;
  addr = (s.nodes i).unicast;
  send_ttl = msg_send_ttl;
  msg_timeout = msg_timeout;
}

module _ (env : Env) where
  -- `farmely_send_get`.
  unfoldable pub send_get : ℕ → M EspErr
  send_get i = do
    s ← get
    perform env (sent (onoff_get (set_msg_common s i onoff_client gen_onoff_get)))

  -- `farmely_start_get`.
  unfoldable pub start_get : ℕ → M EspErr
  start_get i =
      if leb env.max_nodes i
      then pure invalid_arg
      else do modify (λ s. record s { get_retries = update s.get_retries i 0 }); send_get i

  -- `farmely_reset_config_retries`.
  unfoldable pub reset_config_retries : ℕ → M (Unit {0})
  reset_config_retries i =
      if ltb i env.max_nodes
      then modify (λ s. record s { config_retries = update s.config_retries i 0 })
      else skip

  -- `farmely_take_config_retry`.
  unfoldable pub take_config_retry : ℕ → M Bool
  take_config_retry i = if leb env.max_nodes i then pure false else do
    s ← get
    if leb farmely_max_retries (s.config_retries i)
        then (do
          modify (λ s. record s { config_retries = update s.config_retries i 0 })
          pure false)
        else (do
          modify (λ s. record s {
            config_retries = update s.config_retries i ((s.config_retries i + 1) % 256);
          })
          pure true)

  -- `farmely_send_group_subscription`.
  unfoldable pub send_group_subscription : ℕ → M EspErr
  send_group_subscription i = do
    s ← get
    perform env (
        sent (
          sub_add (set_msg_common s i config_client model_sub_add) (s.nodes i).unicast
            farmely_group_addr env.onoff_srv_id env.cid_nval))

  -- `farmely_start_group_subscription`.
  unfoldable pub start_group_subscription : ℕ → M EspErr
  start_group_subscription i =
      if leb env.max_nodes i
      then pure invalid_arg
      else do reset_config_retries i; send_group_subscription i

  -- `farmely_send_onoff_request`: `s_tid++` is an 8-bit counter.
  unfoldable pub send_onoff_request : ℕ → Bool → M EspErr
  send_onoff_request i on = do
    s ← get
    modify (λ s. record s { tid = (s.tid + 1) % 256 })
    perform env
        (sent (onoff_set (set_msg_common s i onoff_client gen_onoff_set) false (to_byte on) s.tid))

  -- The configuration requests that the callbacks send: Composition Data Get, AppKey Add and Model
  -- App Bind, each with the fields that `example_ble_mesh_config_client_cb` fills in.
  unfoldable pub send_composition_get : ℕ → M EspErr
  send_composition_get i = do
    s ← get
    perform env (
        sent (
          composition_get (set_msg_common s i config_client composition_data_get) comp_data_page_0))

  unfoldable pub send_app_key_add : ℕ → M EspErr
  send_app_key_add i = do
    s ← get
    perform env (
        sent (
          key_add (set_msg_common s i config_client app_key_add) s.prov_key.net_idx
            s.prov_key.app_idx s.prov_key.app_key))

  unfoldable pub send_model_app_bind : ℕ → M EspErr
  send_model_app_bind i = do
    s ← get
    perform env (
        sent (
          app_bind (set_msg_common s i config_client model_app_bind) (s.nodes i).unicast
            s.prov_key.app_idx env.onoff_srv_id env.cid_nval))
