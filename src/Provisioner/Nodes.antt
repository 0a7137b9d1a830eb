-- ===== src/Provisioner/Nodes.antt =====
-- The node table of esp_ble_mesh/provisioner/main/main.c. A pointer into `nodes` is its index.
pub mod Lookup
pub mod Identity
use esp32_ble_mesh.Base.{
  Bool, List, Option, codes, eq_bytes, find_from, get_or, hex_byte, if◌then◌else◌, leb, ltb, none,
  not, update, ℕ, ◌&&◌, ◌++◌, ◌+◌, ◌==◌,
}
use esp32_ble_mesh.Provisioner.State.{
  Env, EspErr, M, NodeInfo, addr_unassigned, fail, get, invalid_arg, maybe, modify, ok, pure, ◌>>=◌,
  ◌>>◌,
}
use esp32_ble_mesh.Provisioner.Storage.{store_nodes}

-- `farmely_node_device_id`: "node-%02X%02X%02X" of bytes 5 to 7 of the UUID, which fits its buffer.
abbrev pub device_id : NodeInfo → List ℕ
device_id node =
    codes "node-"
    ++ (hex_byte (get_or node.uuid 5 0)
        ++ (hex_byte (get_or node.uuid 6 0) ++ hex_byte (get_or node.uuid 7 0)))

-- `unicast` lies in the address range of the node.
abbrev pub covers : NodeInfo → ℕ → Bool
covers node unicast = leb node.unicast unicast && ltb unicast (node.unicast + node.elem_num)

module _ (env : Env) where
  -- The loops of `example_ble_mesh_store_node_info`: the entry with this UUID, or else the first
  -- free one.
  unfoldable pub entry_of : (ℕ → NodeInfo) → List ℕ → Option ℕ
  entry_of nodes uuid = find_from env.max_nodes 0 (λ i. eq_bytes (nodes i).uuid uuid)

  unfoldable pub free_entry : (ℕ → NodeInfo) → Option ℕ
  free_entry nodes = find_from env.max_nodes 0 (λ i. (nodes i).unicast == addr_unassigned)

  -- The node table with the entry `i` filled, written to NVS.
  unfoldable pub put_node : ℕ → NodeInfo → M EspErr
  put_node i node = do
    modify (λ s. record s { nodes = update s.nodes i node })
    store_nodes env
    pure ok

  -- `example_ble_mesh_store_node_info`.
  unfoldable pub store_node_info : List ℕ → ℕ → ℕ → ℕ → M EspErr
  unfolding put_node entry_of free_entry
  store_node_info uuid unicast elem_num onoff_state =
      let node : NodeInfo = record {
        uuid = uuid;
        unicast = unicast;
        elem_num = elem_num;
        onoff = onoff_state;
      } in
      if not (env.is_unicast unicast) then pure invalid_arg else do
        s ← get
        maybe (entry_of s.nodes uuid)
            (maybe (free_entry s.nodes) (pure fail) (λ i. put_node i node)) (λ i. put_node i node)

  -- `example_ble_mesh_get_node_info`: the index, or none for NULL.
  unfoldable pub get_node_info : (ℕ → NodeInfo) → ℕ → Option ℕ
  get_node_info nodes unicast =
      if not (env.is_unicast unicast)
      then none
      else find_from env.max_nodes 0 (λ i. covers (nodes i) unicast)
