-- ===== src/MeshRoot/Commands.antt =====
-- The commands of internal_communication/main/mesh_main.c.
use esp32_ble_mesh.Base.{
  Bool, List, Option, [], codes, eq_bytes, false, if◌then◌else◌, leb, length, map, none, not, some,
  true, ℕ, ◌&&◌, ◌+◌, ◌==◌, ◌∷◌,
}
use esp32_ble_mesh.MeshRoot.Registry.{node_find_by_id, node_id}
use esp32_ble_mesh.MeshRoot.Reports.{root_refresh_self}
use esp32_ble_mesh.MeshRoot.State.{
  Config, M, applied_light, emit, get, modify, sent_ctl, skip, write, ◌>>=◌, ◌>>◌,
}

-- `strncasecmp(a, b, n) == 0` at the length of both.
abbrev to_lower : ℕ → ℕ
to_lower c = if leb b'A' c && leb c b'Z' then c + 32 else c

abbrev eq_ignore_case : List ℕ → List ℕ → Bool
eq_ignore_case a b = eq_bytes (map to_lower a) (map to_lower b)

-- `parse_on_off`: the lengths are tested first.
unfoldable pub parse_on_off : List ℕ → Option Bool
parse_on_off payload =
    if (length payload == 2) && eq_ignore_case payload (codes "on")
    then some true
    else if (length payload == 3) && eq_ignore_case payload (codes "off")
    then some false
    else none

-- `mesh_apply_local_ctl`.
unfoldable pub mesh_apply_local_ctl : Bool → M (Unit {0})
mesh_apply_local_ctl on = do
  emit (applied_light on)
  modify (λ s. record s { light_state = if on then 1 else 0 })

-- `mesh_unicast_ctl`.
unfoldable pub mesh_unicast_ctl : List ℕ → Bool → M (Unit {0})
mesh_unicast_ctl addr on = do s ← get; if not s.is_root then skip else emit (sent_ctl addr on)

-- The loop of `mesh_broadcast_ctl` over the routing table, which the mesh stack gives.
unfoldable pub send_all : List (List ℕ) → Bool → M (Unit {0})
send_all [] on = skip
send_all (addr ∷ table) on = do
  s ← get
  if eq_bytes addr s.self_mac then skip else emit (sent_ctl addr on)
  send_all table on

-- `mesh_broadcast_ctl`.
unfoldable pub mesh_broadcast_ctl : List (List ℕ) → Bool → M (Unit {0})
unfolding send_all mesh_apply_local_ctl
mesh_broadcast_ctl table on = do
  s ← get
  if not s.is_root then skip else do send_all table on; mesh_apply_local_ctl on

-- The end of `mqtt_handle_node_cmd`: the wanted state is recorded and sent.
unfoldable pub command_entry : Bool → Option ℕ → M (Unit {0})
unfolding mesh_unicast_ctl
command_entry on none = skip
command_entry on (some i) = do
  s ← get
  write i (record (s.nodes i) { on = if on then 1 else 0 })
  mesh_unicast_ctl (s.nodes i).addr on

module _ (config : Config) where
  -- `mqtt_handle_node_cmd`.
  unfoldable pub mqtt_handle_node_cmd : (now now_us : ℕ) → List ℕ → Bool → M (Unit {0})
  unfolding command_entry mesh_apply_local_ctl
  mqtt_handle_node_cmd now now_us id on = do
    s ← get
    if eq_bytes id (node_id s.self_mac)
        then (do mesh_apply_local_ctl on; root_refresh_self config now now_us)
        else command_entry on (node_find_by_id config s.nodes id)
