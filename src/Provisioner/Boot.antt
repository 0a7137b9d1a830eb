-- ===== src/Provisioner/Boot.antt =====
-- `ble_mesh_init` and `app_main` of esp_ble_mesh/provisioner/main/main.c.
use esp32_ble_mesh.Base.{
  Bool, List, [], codes, false, get_or, hex_byte, if◌then◌else◌, not, replicate, true, ℕ, ◌++◌,
}
use esp32_ble_mesh.Provisioner.Stage
use esp32_ble_mesh.Provisioner.State.{
  Env, EspErr, M, Provisioner, added_local_key, addr_unassigned, created, emit, enabled_prov, get,
  initialised_mesh, is_ok, led_off, modify, no_command, no_node, perform, prov_own_addr, pure,
  recover_nodes, set_uuid_match, started_bridge, ◌>>=◌, ◌>>◌,
}
use esp32_ble_mesh.Provisioner.Storage.{Saved, load_state, store_progress}

-- APP_KEY_IDX and APP_KEY_OCTET.
abbrev pub app_key_idx : ℕ
app_key_idx = 0

abbrev pub app_key_octet : ℕ
app_key_octet = 0x12

-- The static variables before `app_main`.
unfoldable pub zeroed : Provisioner
zeroed = record {
  nodes = λ i. no_node;
  pending = λ i. no_command;
  get_retries = λ i. 0;
  config_retries = λ i. 0;
  status_version = λ i. 0;
  tid = 0;
  toggle_after_get_addr = addr_unassigned;
  progress_stage = 0;
  prov_key = record { net_idx = 0; app_idx = 0; app_key = replicate 16 0 };
  log = [];
}

-- `gateway_id` of `app_main`: "node-%02X%02X%02X" of bytes 5 to 7 of the UUID, which fits its buffer.
abbrev pub gateway_id : List ℕ → List ℕ
gateway_id dev_uuid =
    codes "node-"
    ++ (hex_byte (get_or dev_uuid 5 0)
        ++ (hex_byte (get_or dev_uuid 6 0) ++ hex_byte (get_or dev_uuid 7 0)))

-- A step that ends the function if it fails.
abbrev pub then_if_ok : M EspErr → M EspErr → M EspErr
then_if_ok step next = do err ← step; if is_ok err then next else pure err

module _ (env : Env) where
  -- `ble_mesh_init`.
  unfoldable pub ble_mesh_init : M EspErr
  ble_mesh_init = do
    modify (λ s. record s {
      prov_key = record {
        net_idx = env.key_primary;
        app_idx = app_key_idx;
        app_key = replicate 16 app_key_octet;
      };
    })
    s ← get
    then_if_ok (perform env initialised_mesh) (
        then_if_ok (perform env set_uuid_match) (
          then_if_ok (perform env enabled_prov) (
            perform env
              (added_local_key s.prov_key.app_key s.prov_key.net_idx s.prov_key.app_idx))))

  -- `app_main` once nvs_flash_init has succeeded; ESP_ERROR_CHECK ends the program where it does not.
  -- `bluetooth` is the answer of `bluetooth_init`, `dev_uuid` what ble_mesh_get_dev_uuid writes, and
  -- the result is whether the bridge was started.
  unfoldable pub app_main : Saved → (bluetooth : EspErr) → (dev_uuid : List ℕ) → M Bool
  app_main saved bluetooth dev_uuid = do
    load_state env saved
    store_progress env Stage.started prov_own_addr led_off 0
    if not (is_ok bluetooth) then pure false else do
      err ← ble_mesh_init
      if not (is_ok err) then pure false else do
        emit (started_bridge (gateway_id dev_uuid))
        emit (created recover_nodes)
        pure true
