-- ===== src/MeshRoot/Obeyed.antt =====
-- How the root of internal_communication/main/mesh_main.c obeys a command.
use mathlib.Core.List.{reverse, reverse-cons}
use esp32_ble_mesh.Base.{
  Bool, Bool-cases, List, Option, [], ap, append_assoc, arith, codes, eq_bytes, eq_of_eq_bytes,
  if◌then◌else◌, inl, inr, length, map, none, not, refl, some, sym, true, update, ℕ, ◌++◌, ◌<◌, ◌∙◌,
  ◌∷◌, ◌≡◌, ◌≢◌,
}
use esp32_ble_mesh.MeshRoot.Commands.{
  command_entry, mesh_apply_local_ctl, mesh_broadcast_ctl, mesh_unicast_ctl, mqtt_handle_node_cmd,
  send_all,
}
use esp32_ble_mesh.MeshRoot.Effects.{
  Commanded, OwnLight, Published-trans, Steady, Switched, bit, finish, finish-Acked, finish-frame,
  no_more, one_more, others, refresh-Steady,
}
use esp32_ble_mesh.MeshRoot.Lookup.{node_find_by_id-none, node_find_by_id-some, other_text}
use esp32_ble_mesh.MeshRoot.Registry.{node_find_by_id, node_id}
use esp32_ble_mesh.MeshRoot.Reports.{root_refresh_self}
use esp32_ble_mesh.MeshRoot.Routing.{
  command_group, command_node, mqtt_handle_broadcast, mqtt_publish_status,
}
use esp32_ble_mesh.MeshRoot.Rules.{branch}
use esp32_ble_mesh.MeshRoot.State.{Config, Root, applied_light, sent_ctl, skip}

module _ (config : Config) (now now_us : ℕ) where
  -- A command to the root's own id.
  own-OnLight :
      (id msg_id : List ℕ) (on : Bool) (s : Root)
      → length id < 24
      → eq_bytes id (node_id s.self_mac) ≡ true
      → OwnLight now id msg_id on s (command_node config now now_us id msg_id (some on) s).1
  unfolding mqtt_handle_node_cmd mesh_apply_local_ctl
  own-OnLight id msg_id on s fits own =
      let lit : Root = record s { outs = applied_light on ∷ s.outs; light_state = bit on } in
      let t = (root_refresh_self config now now_us lit).1 in
      let (light, client, reports) = refresh-Steady config now now_us lit in
      rw own (
        eq_of_eq_bytes id (node_id s.self_mac) own,
        (finish-frame now id msg_id t).1 ∙ light,
        t.outs,
        reports,
        finish-Acked now id msg_id s.has_client t fits client,
      )

  abbrev commanded : Bool → ℕ → Root → Root
  commanded on i s = record s {
    nodes = update s.nodes i (record (s.nodes i) { on = bit on });
    outs = sent_ctl (s.nodes i).addr on ∷ s.outs;
  }

  command_entry-commanded :
      (on : Bool) (i : ℕ) (s : Root)
      → s.is_root ≡ true
      → (command_entry on (some i) s).1 ≡ commanded on i s
  unfolding command_entry mesh_unicast_ctl
  command_entry-commanded on i s root =
      let noted : Root = record s {
        nodes = update s.nodes i (record (s.nodes i) { on = bit on });
      } in
      branch (λ t. t ≡ commanded on i s) (not s.is_root) skip _ noted (λ e. absurd (ground arith))
        (λ e. refl)

  -- A command to another id.
  entry-Commanded :
      (id msg_id : List ℕ) (on : Bool) (s : Root) (o : Option ℕ)
      → length id < 24
      → s.is_root ≡ true
      → id ≢ node_id s.self_mac
      → node_find_by_id config s.nodes id ≡ o
      → Commanded config now id msg_id on s (finish now id msg_id (command_entry on o s).1).1
  unfolding command_entry mesh_unicast_ctl
  entry-Commanded id msg_id on s none fits root other e = inr (
      inr (
        other,
        node_find_by_id-none config id s e,
        (finish-frame now id msg_id s).0,
        finish-Acked now id msg_id s.has_client s fits refl,
      ))
  entry-Commanded id msg_id on s (some i) fits root other e =
      let t = commanded on i s in
      let (inside, used, own) = node_find_by_id-some config id s {i = i} e in
      rw (command_entry-commanded on i s root) (
        inr (
          inl (
            i,
            inside,
            used,
            own,
            (finish-frame now id msg_id t).0,
            finish-Acked now id msg_id s.has_client t fits refl,
          )))

  pub command_node-Commanded :
      (id msg_id : List ℕ) (on : Bool) (s : Root)
      → length id < 24
      → s.is_root ≡ true
      → Commanded config now id msg_id on s (command_node config now now_us id msg_id (some on) s).1
  unfolding mqtt_handle_node_cmd
  command_node-Commanded id msg_id on s fits root =
      elim (Bool-cases (eq_bytes id (node_id s.self_mac))) [
        | inl own ↦ inl (own-OnLight id msg_id on s fits own)
        | inr other ↦ rw other (
            entry-Commanded id msg_id on s (node_find_by_id config s.nodes id) fits root
              (other_text true id (node_id s.self_mac) other refl) refl)
      ]

-- The messages to the routing table.
send_all-sent :
    (table : List (List ℕ)) (on : Bool) (s : Root)
    → (send_all table on s).1 ≡ record s {
      outs = reverse (map (λ addr. sent_ctl addr on) (others s.self_mac table)) ++ s.outs;
    }
unfolding send_all
send_all-sent [] on s = refl
send_all-sent (addr ∷ table) on s = elim (Bool-cases (eq_bytes addr s.self_mac)) [
  | inl own ↦ rw own (send_all-sent table on s)
  | inr other ↦
      let sent = map (λ addr. sent_ctl addr on) (others s.self_mac table) in
      let one : Root = record s { outs = sent_ctl addr on ∷ s.outs } in
      rw other (
        send_all-sent table on one
        ∙ ap (λ l. record s { outs = l })
            (sym (append_assoc (reverse sent) (sent_ctl addr on ∷ []) s.outs)
              ∙ ap (λ l. l ++ s.outs) (sym (reverse-cons (sent_ctl addr on) sent))))
]

-- The root and the nodes after a group command, before any report.
abbrev all_sent : List (List ℕ) → Bool → Root → Root
all_sent table on s = record s {
  light_state = bit on;
  outs =
      applied_light on
      ∷ (reverse (map (λ addr. sent_ctl addr on) (others s.self_mac table)) ++ s.outs);
}

mesh_broadcast_ctl-all_sent :
    (table : List (List ℕ)) (on : Bool) (s : Root)
    → s.is_root ≡ true
    → (mesh_broadcast_ctl table on s).1 ≡ all_sent table on s
unfolding mesh_broadcast_ctl mesh_apply_local_ctl
mesh_broadcast_ctl-all_sent table on s root =
    branch (λ t. t ≡ all_sent table on s) (not s.is_root) skip _ s (λ e. absurd (ground arith))
      (λ e.
        ap (λ (t : Root). record t { light_state = bit on; outs = applied_light on ∷ t.outs })
          (send_all-sent table on s))

module _ (config : Config) (now now_us : ℕ) where
  status-Steady : (name : List ℕ) (s : Root) → Steady config now s (mqtt_publish_status name s).1
  unfolding mqtt_publish_status
  status-Steady name s =
      branch (Steady config now s) (not s.has_client) skip _ s (λ e. (refl, refl, no_more))
        (λ e. (refl, refl, one_more no_more))

  pub command_group-Switched :
      (table : List (List ℕ)) (on : Option Bool) (s : Root)
      → s.is_root ≡ true
      → Switched table on s (command_group config now now_us table on s).1
  unfolding mqtt_handle_broadcast
  command_group-Switched table none s root = refl
  command_group-Switched table (some on) s root =
      let sent = all_sent table on s in
      let name = if on then codes "cmd_on" else codes "cmd_off" in
      let told = (mqtt_publish_status name sent).1 in
      let (light, client, first) = status-Steady name sent in
      let (light', client', rest) = refresh-Steady config now now_us told in
      rw (mesh_broadcast_ctl-all_sent table on s root) (light' ∙ light, Published-trans first rest)
