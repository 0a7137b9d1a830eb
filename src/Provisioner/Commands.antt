-- ===== src/Provisioner/Commands.antt =====
-- On/off commands of esp_ble_mesh/provisioner/main/main.c: to one node, to the group, and the tasks
-- and bridge handlers around them. `others` is what the rest of the program does while a task sleeps.
pub mod Directed
pub mod Group
pub mod Broadcast
use esp32_ble_mesh.Base.{
  Bool, List, Option, codes, eq_bytes, false, find_from, if◌then◌else◌, leb, ltb, none, not,
  or_empty, some, strlcpy, suc, true, update, zero, ℕ, ◌%◌, ◌&&◌, ◌+◌, ◌==◌, ◌||◌,
}
use esp32_ble_mesh.Provisioner.Nodes.{device_id}
use esp32_ble_mesh.Provisioner.Requests.{
  send_get, send_onoff_request, set_msg_common, start_get, start_group_subscription, to_byte,
}
use esp32_ble_mesh.Provisioner.State.{
  Env, EspErr, M, NodeInfo, Provisioner, created, delayed_ms, disabled_prov, emit, enabled_prov,
  farmely_group_addr, for_from, gateway_status, gen_onoff_set_unack, get, group_sync, invalid_arg,
  invalid_state, is_ok, maybe, modify, no_command, no_mem, not_found, onoff_client, onoff_set,
  perform, pure, recover_nodes, sent, skip, ◌>>=◌, ◌>>◌,
}

-- `message_id` is kept in a buffer of 96 bytes.
abbrev pub message_id_size : ℕ
message_id_size = 96

-- `vTaskDelay(pdMS_TO_TICKS(ms))`.
abbrev pub delay : M (Unit {0}) → ℕ → M (Unit {0})
delay others ms = do emit (delayed_ms ms); others

module _ (env : Env) where
  -- Whether an entry of the table is in use.
  abbrev pub is_registered : Provisioner → ℕ → Bool
  is_registered s i = env.is_unicast (s.nodes i).unicast

  -- `farmely_clear_pending`.
  unfoldable pub clear_pending : ℕ → M (Unit {0})
  clear_pending i =
      if ltb i env.max_nodes
      then modify (λ s. record s { pending = update s.pending i no_command })
      else skip

  -- `farmely_clear_all_pending`.
  unfoldable pub clear_all_pending : M (Unit {0})
  unfolding clear_pending for_from
  clear_all_pending = for_from env.max_nodes 0 clear_pending

  -- `s_pending[i]` taken by a command. The retry counter is left as it is.
  unfoldable pub take_pending : ℕ → Bool → Option (List ℕ) → M (Unit {0})
  take_pending i on message_id = modify (λ s. record s {
    pending = update s.pending i (record (s.pending i) {
      in_flight = true;
      desired_onoff = to_byte on;
      message_id = strlcpy (or_empty message_id) message_id_size;
    });
  })

  -- `farmely_send_onoff`.
  unfoldable pub send_onoff : ℕ → Bool → Option (List ℕ) → M EspErr
  send_onoff i on message_id = if leb env.max_nodes i then pure invalid_arg else do
    s ← get
    if (s.pending i).in_flight then pure invalid_state else do
      take_pending i on message_id
      err ← send_onoff_request env i on
      if is_ok err then skip else clear_pending i
      pure err

  -- A round of `farmely_group_sync_task`.
  unfoldable pub group_sync_round : M (Unit {0}) → ℕ → M (Unit {0})
  group_sync_round others i = do
    s ← get
    if not (s.pending i).in_flight || not (is_registered s i)
        then skip
        else do err ← send_get env i; if is_ok err then skip else clear_pending i; delay others 100

  -- `farmely_group_sync_task`.
  unfoldable pub group_sync_task : M (Unit {0}) → M (Unit {0})
  group_sync_task others = do delay others 500; for_from env.max_nodes 0 (group_sync_round others)

  -- The first loop of `farmely_send_group_onoff`: the number of registered nodes, or none if one of
  -- them has a command in flight.
  unfoldable pub group_count : ℕ → ℕ → ℕ → Provisioner → Option ℕ
  group_count zero i node_count s = some node_count
  group_count (suc k) i node_count s =
      let rest =
        group_count k (suc i) (if is_registered s i then node_count + 1 else node_count) s in
      if is_registered s i && (s.pending i).in_flight then none else rest

  -- A round of its second loop.
  unfoldable pub group_mark : Bool → Option (List ℕ) → ℕ → M (Unit {0})
  group_mark on message_id i = do
    s ← get
    if is_registered s i then take_pending i on message_id else skip

  -- The last step of the group command: a request that failed leaves no command pending.
  unfoldable pub finish_group : EspErr → M EspErr
  finish_group err = do if is_ok err then skip else clear_all_pending; pure err

  -- The unacknowledged set to the group address.
  unfoldable pub send_group_request : Bool → ℕ → M EspErr
  send_group_request on tid = do
    s ← get
    err ← perform env (
        sent (
          onoff_set
            (record (set_msg_common s 0 onoff_client gen_onoff_set_unack) {
              addr = farmely_group_addr;
            })
            false (to_byte on) tid))
    finish_group err

  -- The transaction number is taken, the task that reads the lamps back is started, and the request
  -- is sent.
  unfoldable pub send_group_set : Bool → M EspErr
  send_group_set on = do
    s ← get
    modify (λ s. record s { tid = (s.tid + 1) % 256 })
    created_task ← perform env (created group_sync)
    if is_ok created_task then send_group_request on s.tid else (do clear_all_pending; pure no_mem)

  -- `farmely_send_group_onoff`.
  unfoldable pub send_group_onoff : Bool → Option (List ℕ) → M EspErr
  send_group_onoff on message_id = do
    s ← get
    maybe (group_count env.max_nodes 0 0 s) (pure invalid_state) λ node_count.
        if node_count == 0
        then pure not_found
        else do for_from env.max_nodes 0 (group_mark on message_id); send_group_set on

  -- The node that the loop of `farmely_bridge_command` stops at.
  unfoldable pub node_with_id : (ℕ → NodeInfo) → List ℕ → Option ℕ
  node_with_id nodes id =
      find_from env.max_nodes 0
        (λ i. env.is_unicast (nodes i).unicast && eq_bytes id (device_id (nodes i)))

  -- `farmely_bridge_command`.
  unfoldable pub bridge_command : List ℕ → Bool → Option (List ℕ) → M EspErr
  bridge_command id on message_id =
      if eq_bytes id (codes "*") then send_group_onoff on message_id else do
        s ← get
        maybe (node_with_id s.nodes id) (pure not_found) (λ i. send_onoff i on message_id)

  -- A round of `farmely_bridge_sync`.
  sync_round : ℕ → M (Unit {0})
  sync_round i = do s ← get; if is_registered s i then (do start_get env i; skip) else skip

  -- The number of registered nodes among the `k` from `i`.
  unfoldable pub count_registered : ℕ → ℕ → Provisioner → ℕ
  count_registered zero i s = 0
  count_registered (suc k) i s = (if is_registered s i then 1 else 0) + count_registered k (suc i) s

  -- `farmely_bridge_sync`. The requests do not change the table, so the count is taken at once.
  unfoldable pub bridge_sync : M (Unit {0})
  unfolding sync_round
  bridge_sync = do
    s ← get
    for_from env.max_nodes 0 sync_round
    emit (gateway_status (count_registered env.max_nodes 0 s))

  -- A round of `farmely_recover_nodes_task`.
  unfoldable pub recover_round : M (Unit {0}) → ℕ → M (Unit {0})
  recover_round others i = do
    s ← get
    if is_registered s i
        then (do
          err ← start_group_subscription env i
          if is_ok err then skip else (do start_get env i; skip)
          delay others 250)
        else skip

  -- `farmely_recover_nodes_task`.
  unfoldable pub recover_nodes_task : M (Unit {0}) → M (Unit {0})
  recover_nodes_task others = do delay others 3000; for_from env.max_nodes 0 (recover_round others)

  -- `farmely_mesh_yield_radio`.
  unfoldable pub mesh_yield_radio : Bool → M (Unit {0})
  mesh_yield_radio yield = if yield then emit disabled_prov else do
    err ← perform env enabled_prov
    if is_ok err then emit (created recover_nodes) else skip
