-- ===== src/Provisioner/Provisioning.antt =====
-- `example_ble_mesh_provisioning_cb` of esp_ble_mesh/provisioner/main/main.c: a device is found,
-- provisioned, and asked for its composition. Events that are only logged are one constructor.
use esp32_ble_mesh.Base.{List, if◌then◌else◌, not, ℕ, ◌==◌}
use esp32_ble_mesh.Provisioner.Nodes.{get_node_info, store_node_info}
use esp32_ble_mesh.Provisioner.Requests.{send_composition_get}
use esp32_ble_mesh.Provisioner.Stage
use esp32_ble_mesh.Provisioner.State.{
  Env, EspErr, M, UnprovDev, added_unprov, addr_unassigned, bound_local_key, emit, fail, get, is_ok,
  led_off, maybe, modify, named_node, ok, perform, pure, skip, ◌>>=◌, ◌>>◌,
}
use esp32_ble_mesh.Provisioner.Storage.{store_progress}

pub data ProvEvent : Type 0 where
  recv_unprov_adv_pkt : UnprovDev → ProvEvent
  prov_complete : (node_idx : ℕ) → (uuid : List ℕ) → (unicast : ℕ) → (elem_num : ℕ) → ProvEvent
  add_local_app_key_comp : (err_code : ℕ) → (app_idx : ℕ) → ProvEvent
  logged_event : ProvEvent

module _ (env : Env) where
  -- `recv_unprov_adv_pkt`: the device goes to the provisioning queue.
  unfoldable pub on_unprov_adv_pkt : UnprovDev → M (Unit {0})
  on_unprov_adv_pkt dev = do
    store_progress env Stage.node_found addr_unassigned led_off 0
    emit (added_unprov dev)

  -- `prov_complete`, after the node has its name.
  register_node : List ℕ → ℕ → ℕ → M EspErr
  register_node uuid unicast elem_num = do
    err ← store_node_info env uuid unicast elem_num led_off
    if not (is_ok err) then pure fail else do
      store_progress env Stage.provisioned unicast led_off 0
      s ← get
      maybe (get_node_info env s.nodes unicast) (pure fail)
          λ i. do err ← send_composition_get env i; pure (if is_ok err then ok else fail)

  -- `prov_complete`.
  unfoldable pub on_prov_complete : ℕ → List ℕ → ℕ → ℕ → M EspErr
  unfolding register_node
  on_prov_complete node_idx uuid unicast elem_num = do
    err ← perform env (named_node node_idx)
    if is_ok err then register_node uuid unicast elem_num else pure fail

  -- The case ADD_LOCAL_APP_KEY_COMP.
  unfoldable pub on_local_app_key : ℕ → ℕ → M (Unit {0})
  on_local_app_key err_code app_idx =
      if err_code == 0
      then (do
        modify (λ s. record s { prov_key = record (s.prov_key) { app_idx = app_idx } })
        emit (bound_local_key app_idx))
      else skip

  -- `example_ble_mesh_provisioning_cb`.
  unfoldable pub provisioning_cb : ProvEvent → M (Unit {0})
  provisioning_cb (recv_unprov_adv_pkt dev) = on_unprov_adv_pkt dev
  provisioning_cb (prov_complete node_idx uuid unicast elem_num) = do
    on_prov_complete node_idx uuid unicast elem_num
    skip
  provisioning_cb (add_local_app_key_comp err_code app_idx) = on_local_app_key err_code app_idx
  provisioning_cb logged_event = skip
