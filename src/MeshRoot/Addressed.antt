-- ===== src/MeshRoot/Addressed.antt =====
-- Whom `mqtt_handle_node_cmd` of internal_communication/main/mesh_main.c commands.
use esp32_ble_mesh.Base.{
  Bool, List, Option-cases, arith, eq_bytes, false, inl, inr, refl, some, true, ℕ, ◌<◌, ◌∷◌, ◌≡◌,
  ◌⊎◌,
}
use esp32_ble_mesh.MeshRoot.Commands.{command_entry, mesh_unicast_ctl, mqtt_handle_node_cmd}
use esp32_ble_mesh.MeshRoot.Lookup.{NoNode, node_find_by_id-none, node_find_by_id-some}
use esp32_ble_mesh.MeshRoot.Registry.{node_find_by_id, node_id}
use esp32_ble_mesh.MeshRoot.State.{Config, Root, sent_ctl}

-- The entry `i` bears the id, and its node alone is sent the command.
abbrev pub SentTo : ℕ → List ℕ → Bool → Root → Root → Type 0
SentTo i id on s t =
    ((s.nodes i).used ≡ true)
    × (node_id (s.nodes i).mac ≡ id)
    × (t.outs ≡ sent_ctl (s.nodes i).addr on ∷ s.outs)

-- No entry in use bears the id, or this is not the root.
abbrev pub Unsent : Config → List ℕ → Root → Type 0
Unsent config id s = (s.is_root ≡ false) ⊎ NoNode config id s

command_entry-outs :
    (on : Bool) (i : ℕ) (s : Root)
    → (((command_entry on (some i) s).1.outs ≡ s.outs) × (s.is_root ≡ false))
      ⊎ ((command_entry on (some i) s).1.outs ≡ sent_ctl (s.nodes i).addr on ∷ s.outs)
unfolding command_entry mesh_unicast_ctl
command_entry-outs on i s = ground arith

entry-SentTo :
    (config : Config) (id : List ℕ) (on : Bool) (s : Root)
    → let t = (command_entry on (node_find_by_id config s.nodes id) s).1 in
      ((t.outs ≡ s.outs) × Unsent config id s)
      ⊎ ((i : ℕ) × (i < config.max_nodes) × SentTo i id on s t)
entry-SentTo config id on s = elim (Option-cases (node_find_by_id config s.nodes id)) [
  | inl e ↦ inl (rw e (unfold command_entry in refl), inr (node_find_by_id-none config id s e))
  | inr (i, e) ↦
      let (inside, used, own) = node_find_by_id-some config id s {i = i} e in
      rw e (elim (command_entry-outs on i s) [
        | inl quiet ↦ inl (quiet.0, inl quiet.1)
        | inr one ↦ inr (i, inside, (used, own, one))
      ])
]

-- A command to an id that is not the root's own sends one message, to a node of the registry that
-- bears the id; it sends none only if no entry in use bears the id or the device is not the root.
pub node_cmd-SentTo :
    (config : Config) (now now_us : ℕ) (id : List ℕ) (on : Bool) (s : Root)
    → eq_bytes id (node_id s.self_mac) ≡ false
    → let t = (mqtt_handle_node_cmd config now now_us id on s).1 in
      ((t.outs ≡ s.outs) × Unsent config id s)
      ⊎ ((i : ℕ) × (i < config.max_nodes) × SentTo i id on s t)
unfolding mqtt_handle_node_cmd
node_cmd-SentTo config now now_us id on s other_id = rw other_id (entry-SentTo config id on s)
