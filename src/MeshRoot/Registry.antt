-- ===== src/MeshRoot/Registry.antt =====
-- The registry of internal_communication/main/mesh_main.c: ids and look-ups.
use esp32_ble_mesh.Base.{
  Bool, List, Option, codes, eq_bytes, find_from, get_or, hex_byte, none, not, some, true, ℕ, ◌&&◌,
  ◌++◌,
}
use esp32_ble_mesh.MeshRoot.State.{Config, M, NodeEntry, no_entry, pure, write, ◌>>◌}

-- `node_id_str`: "node-%02X%02X%02X" of the last three bytes.
abbrev pub node_id : List ℕ → List ℕ
node_id mac =
    codes "node-"
    ++ (hex_byte (get_or mac 3 0) ++ (hex_byte (get_or mac 4 0) ++ hex_byte (get_or mac 5 0)))

abbrev pub has_mac : (ℕ → NodeEntry) → List ℕ → ℕ → Bool
has_mac nodes mac i = (nodes i).used && eq_bytes (nodes i).mac mac

module _ (config : Config) where
  -- The loop of `node_find_or_add_locked`: the entry with this address, or else the first unused one.
  unfoldable pub entry_of : (ℕ → NodeEntry) → List ℕ → Option ℕ
  entry_of nodes mac = find_from config.max_nodes 0 (has_mac nodes mac)

  unfoldable pub free_entry : (ℕ → NodeEntry) → Option ℕ
  free_entry nodes = find_from config.max_nodes 0 (λ i. not (nodes i).used)

  -- An unused entry is zeroed and takes the address.
  unfoldable pub claim_entry : List ℕ → Option ℕ → M (Option ℕ)
  claim_entry mac none = pure none
  claim_entry mac (some i) = do write i (record no_entry { used = true; mac = mac }); pure (some i)

  -- `node_find_or_add_locked`; none for -1.
  unfoldable pub node_find_or_add : List ℕ → M (Option ℕ)
  unfolding claim_entry
  node_find_or_add mac s = elim (entry_of s.nodes mac) [
    | some i ↦ (some i, s)
    | none ↦ claim_entry mac (free_entry s.nodes) s
  ]

  -- `node_find_by_id_locked`, and the same loop in `mqtt_handle_node_cmd`.
  unfoldable pub node_find_by_id : (ℕ → NodeEntry) → List ℕ → Option ℕ
  node_find_by_id nodes id =
      find_from config.max_nodes 0 (λ i. (nodes i).used && eq_bytes (node_id (nodes i).mac) id)
