-- ===== src/Provisioner/GenericClient.antt =====
-- `example_ble_mesh_generic_client_cb` of esp_ble_mesh/provisioner/main/main.c: the replies to on/off
-- requests, their acknowledgement to the cloud, and the retries.
use esp32_ble_mesh.Base.{
  Bool, false, if◌then◌else◌, leb, ltb, none, not, true, update, ℕ, ◌%◌, ◌&&◌, ◌+◌, ◌==◌, ◌^◌, ◌||◌,
}
use esp32_ble_mesh.Provisioner.Commands.{clear_pending, send_onoff}
use esp32_ble_mesh.Provisioner.ConfigClient.{known_onoff}
use esp32_ble_mesh.Provisioner.Nodes.{device_id, get_node_info}
use esp32_ble_mesh.Provisioner.Requests.{send_get, send_onoff_request, to_bool}
use esp32_ble_mesh.Provisioner.Stage
use esp32_ble_mesh.Provisioner.State.{
  Env, M, Opcode, ack, addr_unassigned, emit, farmely_group_addr, farmely_max_retries,
  gen_onoff_get, gen_onoff_set, gen_onoff_set_unack, get, is_ok, led_on, maybe, modify, node_status,
  skip, ◌>>=◌, ◌>>◌,
}
use esp32_ble_mesh.Provisioner.Storage.{store_nodes, store_progress}

pub data GenericEvent : Type 0 where
  get_state_event set_state_event publish_event timeout_event other_event : GenericEvent

pub record GenericReply : Type 0 where
  pub error_code : ℕ
  pub opcode : Opcode
  pub addr : ℕ
  pub present_onoff : ℕ

abbrev pub is_set_unack : Opcode → Bool
is_set_unack gen_onoff_set_unack = true
is_set_unack _ = false

module _ (env : Env) where
  -- `node->onoff = …; s_status_version[index]++`. The version is a 32-bit counter.
  unfoldable pub note_status : ℕ → ℕ → M (Unit {0})
  note_status i present = do
    modify (λ s. record s { nodes = update s.nodes i (record (s.nodes i) { onoff = present }) })
    if ltb i env.max_nodes
        then modify (λ s. record s {
          status_version = update s.status_version i ((s.status_version i + 1) % 2 ^ 32);
        })
        else skip

  -- The status goes to the cloud.
  unfoldable pub publish_status : ℕ → M (Unit {0})
  publish_status i = do
    s ← get
    emit (node_status (device_id (s.nodes i)) ((s.nodes i).onoff == led_on) true)

  -- The pending set request is sent again, or given up if it cannot be.
  unfoldable pub resend_onoff : ℕ → M (Unit {0})
  resend_onoff i = do
    s ← get
    err ← send_onoff_request env i (to_bool (s.pending i).desired_onoff)
    if is_ok err then skip else clear_pending env i

  -- `s_pending[index].retries = …`.
  unfoldable pub set_retries : ℕ → ℕ → M (Unit {0})
  set_retries i n =
      modify (λ s. record s { pending = update s.pending i (record (s.pending i) { retries = n }) })

  -- The command is confirmed: it is acknowledged and cleared.
  unfoldable pub confirm : ℕ → M (Unit {0})
  confirm i = do
    s ← get
    emit (ack (device_id (s.nodes i)) (s.pending i).message_id)
    clear_pending env i

  -- The command in flight, after a reply to a get.
  unfoldable pub settle_get : ℕ → M (Unit {0})
  unfolding set_retries
  settle_get i = do
    s ← get
    if ltb i env.max_nodes && (s.pending i).in_flight
        then (if (s.pending i).desired_onoff == (s.nodes i).onoff
            then confirm i
            else do set_retries i 0; resend_onoff i)
        else skip

  -- The command in flight, after a reply to a set.
  unfoldable pub settle_set : ℕ → M (Unit {0})
  unfolding set_retries
  settle_set i = do
    s ← get
    if ltb i env.max_nodes && (s.pending i).in_flight
        then (if (s.pending i).desired_onoff == (s.nodes i).onoff
            then confirm i
            else if leb farmely_max_retries (s.pending i).retries
            then clear_pending env i
            else do set_retries i (((s.pending i).retries + 1) % 256); resend_onoff i)
        else skip

  -- The first get after the configuration is followed by one toggle of the lamp.
  unfoldable pub toggle_once : ℕ → ℕ → M (Unit {0})
  toggle_once i addr = do
    s ← get
    if s.toggle_after_get_addr == addr
        then (do
          modify (λ s. record s { toggle_after_get_addr = addr_unassigned })
          send_onoff env i (not (to_bool (s.nodes i).onoff)) none
          skip)
        else skip

  -- The reply to a get, up to the command in flight.
  unfoldable pub record_get : ℕ → GenericReply → M (Unit {0})
  unfolding note_status publish_status
  record_get i reply = do
    note_status i reply.present_onoff
    if ltb i env.max_nodes
        then modify (λ s. record s { get_retries = update s.get_retries i 0 })
        else skip
    store_nodes env
    s ← get
    store_progress env
        (if s.toggle_after_get_addr == reply.addr
          then Stage.onoff_received
          else Stage.node_recovered)
        reply.addr (s.nodes i).onoff 0
    publish_status i

  -- ESP_BLE_MESH_GENERIC_CLIENT_GET_STATE_EVT.
  unfoldable pub on_onoff_get : ℕ → GenericReply → M (Unit {0})
  on_onoff_get i reply = do record_get i reply; settle_get i; toggle_once i reply.addr

  -- The reply to a set, up to the command in flight.
  unfoldable pub record_set : ℕ → GenericReply → M (Unit {0})
  unfolding note_status publish_status
  record_set i reply = do
    note_status i reply.present_onoff
    store_nodes env
    s ← get
    store_progress env Stage.onoff_set reply.addr (s.nodes i).onoff 0
    publish_status i

  -- ESP_BLE_MESH_GENERIC_CLIENT_SET_STATE_EVT.
  unfoldable pub on_onoff_set : ℕ → GenericReply → M (Unit {0})
  on_onoff_set i reply = do record_set i reply; settle_set i

  -- A get that is sent again.
  unfoldable pub resend_get : ℕ → M (Unit {0})
  resend_get i = do
    err ← send_get env i
    s ← get
    if not (is_ok err) && (ltb i env.max_nodes && (s.pending i).in_flight)
        then clear_pending env i
        else skip

  -- A get timed out: the retry is counted against the command in flight, if there is one.
  unfoldable pub on_get_timeout : ℕ → M (Unit {0})
  unfolding set_retries resend_get
  on_get_timeout i = do
    s ← get
    if ltb i env.max_nodes && (s.pending i).in_flight
        then (if leb farmely_max_retries (s.pending i).retries
            then clear_pending env i
            else do set_retries i (((s.pending i).retries + 1) % 256); resend_get i)
        else (if ltb i env.max_nodes
            then (if leb farmely_max_retries (s.get_retries i)
                then modify (λ s. record s { get_retries = update s.get_retries i 0 })
                else do
                  modify (λ s. record s {
                    get_retries = update s.get_retries i ((s.get_retries i + 1) % 256);
                  })
                  resend_get i)
            else resend_get i)

  -- A set timed out.
  unfoldable pub on_set_timeout : ℕ → M (Unit {0})
  unfolding set_retries
  on_set_timeout i = do
    s ← get
    if leb env.max_nodes i || not (s.pending i).in_flight
        then skip
        else if leb farmely_max_retries (s.pending i).retries
        then clear_pending env i
        else do set_retries i (((s.pending i).retries + 1) % 256); resend_onoff i

  -- The switch over the events, for a known node.
  unfoldable pub on_generic_event : ℕ → GenericReply → GenericEvent → Opcode → M (Unit {0})
  on_generic_event i reply get_state_event gen_onoff_get = on_onoff_get i reply
  on_generic_event i reply set_state_event gen_onoff_set = on_onoff_set i reply
  on_generic_event i reply timeout_event gen_onoff_get = on_get_timeout i
  on_generic_event i reply timeout_event gen_onoff_set = on_set_timeout i
  on_generic_event i reply _ _ = skip

  -- A request failed: the command in flight is given up, and the error recorded.
  unfoldable pub on_generic_error : GenericReply → M (Unit {0})
  on_generic_error reply = do
    s ← get
    maybe (get_node_info env s.nodes reply.addr) skip (clear_pending env)
    store_progress env s.progress_stage reply.addr
        (known_onoff s (get_node_info env s.nodes reply.addr)) reply.error_code

  -- `example_ble_mesh_generic_client_cb`.
  unfoldable pub generic_client_cb : GenericEvent → GenericReply → M (Unit {0})
  generic_client_cb event reply =
      if is_set_unack reply.opcode && (reply.addr == farmely_group_addr)
      then skip
      else if not (reply.error_code == 0)
      then on_generic_error reply
      else do
        s ← get
        maybe (get_node_info env s.nodes reply.addr) skip
            (λ i. on_generic_event i reply event reply.opcode)
