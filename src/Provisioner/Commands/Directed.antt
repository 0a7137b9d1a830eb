-- ===== src/Provisioner/Commands/Directed.antt =====
-- `farmely_send_onoff` and `farmely_bridge_command` of esp_ble_mesh/provisioner/main/main.c, for
-- one node.
use native.Mathlib.Decide.{ℕ_discrete}
use esp32_ble_mesh.Base.{
  Bool, Bool-cases, List, Option, and_right, ap, arith, codes, eq_bytes, eq_of_eq_bytes, false,
  find_from_found, if◌then◌else◌, inl, inr, not, or_empty, refl, strlcpy, sym, true, update, ℕ,
  ◌&&◌, ◌<◌, ◌==◌, ◌∙◌, ◌≡◌, ◌≢◌, ◌⊎◌,
}
use esp32_ble_mesh.Provisioner.Commands.{
  bridge_command, clear_pending, message_id_size, node_with_id, send_onoff, take_pending,
}
use esp32_ble_mesh.Provisioner.Nodes.{device_id}
use esp32_ble_mesh.Provisioner.Requests.{send_onoff_request, to_byte}
use esp32_ble_mesh.Provisioner.Rules.{branch_maybe}
use esp32_ble_mesh.Provisioner.State.{
  Env, EspErr, PendingCommand, Provisioner, invalid_state, is_ok, no_command,
}

module _ (env : Env) (i : ℕ) (on : Bool) (id : Option (List ℕ)) (s : Provisioner) where
  -- The entry of a command that was taken.
  abbrev pub taken : PendingCommand
  taken = record (s.pending i) {
    in_flight = true;
    desired_onoff = to_byte on;
    message_id = strlcpy (or_empty id) message_id_size;
  }

  -- A command to a node that has one in flight is refused, and changes nothing.
  pub send_onoff_busy :
      i < env.max_nodes
      → (s.pending i).in_flight ≡ true
      → send_onoff env i on id s ≡ (invalid_state, s)
  unfolding send_onoff
  send_onoff_busy inside busy = ground arith

  abbrev result : EspErr × Provisioner
  result = send_onoff env i on id s

  module _ (inside : i < env.max_nodes) (free : (s.pending i).in_flight ≡ false) where
    -- Otherwise the entry is taken, or cleared if the request could not be sent.
    pending-send_onoff : result.1.pending i ≡ (if is_ok result.0 then taken else no_command)
    unfolding send_onoff take_pending send_onoff_request clear_pending update
    pending-send_onoff = ground arith

  -- The other entries stay.
  pub pending-send_onoff_ne : (j : ℕ) → i ≢ j → result.1.pending j ≡ s.pending j
  unfolding send_onoff take_pending send_onoff_request clear_pending update
  pending-send_onoff_ne j h = ground arith

-- A command to a device id other than "*" changes no entry of a node with another device id.
pub bridge_command_directed :
    (env : Env) (device : List ℕ) (on : Bool) (id : Option (List ℕ)) (s : Provisioner) (j : ℕ)
    → eq_bytes device (codes "*") ≡ false
    → device ≢ device_id (s.nodes j)
    → (bridge_command env device on id s).1.pending j ≡ s.pending j
unfolding bridge_command node_with_id
bridge_command_directed env device on id s j directed distinct = rw directed (
    branch_maybe (λ t. t.pending j ≡ s.pending j) (node_with_id env s.nodes device) _ _ s
      (λ e. refl)
      (λ i e.
        let found =
          find_from_found env.max_nodes 0
            (λ k. env.is_unicast (s.nodes k).unicast && eq_bytes device (device_id (s.nodes k)))
            {j = i} e in
        pending-send_onoff_ne env i on id s j (λ same. distinct (
          eq_of_eq_bytes device _ (and_right _ _ found.2) ∙ ap (λ k. device_id (s.nodes k)) same))))

-- The entry of the node `j` after a command to the node `i` that gave `err`.
abbrev pub entry_after :
    Env → ℕ → Bool → Option (List ℕ) → Provisioner → EspErr → ℕ → PendingCommand
entry_after env i on id s err j =
    if not (j == i)
    then s.pending j
    else if (s.pending i).in_flight
    then s.pending i
    else if is_ok err
    then taken env i on id s
    else no_command

-- A command to a node `i` of the table: if one is in flight it is refused and nothing changes; otherwise its
-- entry is taken with the wanted state and the message id, or cleared if the request could not be
-- sent. No other entry changes.
pub send_onoff_outcome :
    (env : Env) (i : ℕ) (on : Bool) (id : Option (List ℕ)) (s : Provisioner) (j : ℕ)
    → i < env.max_nodes
    → let r = send_onoff env i on id s in
      (((s.pending i).in_flight ≡ false) ⊎ (r ≡ (invalid_state, s)))
      × (r.1.pending j ≡ entry_after env i on id s r.0 j)
send_onoff_outcome env i on id s j inside = elim (Bool-cases (s.pending i).in_flight) [
  | inl busy ↦
      let same = send_onoff_busy env i on id s inside busy in
      (inr same, ground (arith, ap (λ r. r.1.pending j) same))
  | inr free ↦
      let own = pending-send_onoff env i on id s inside free in
      (
        inl free,
        elim (ℕ_discrete j i) [
          | yes e ↦ ground (arith, own, ap (λ k. (send_onoff env i on id s).1.pending k) e)
          | no ne ↦ ground (arith, pending-send_onoff_ne env i on id s j (λ e. ne (sym e)))
        ],
      )
]
