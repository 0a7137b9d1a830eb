-- ===== src/MeshRoot/Kept/Messages.antt =====
-- That MQTT messages keep the addresses of the registry of internal_communication/main/mesh_main.c
-- apart.
use esp32_ble_mesh.Base.{
  Bool, List, Option, [], c_string, contains, inl, inr, length, ltb, none, not, some, ℕ, ◌++◌, ◌||◌,
  ◌∷◌,
}
use esp32_ble_mesh.MeshRoot.Commands.{mqtt_handle_node_cmd}
use esp32_ble_mesh.MeshRoot.Kept.Operations.{
  Keeps, group-Distinct, node_cmd-Distinct, refresh-Distinct,
}
use esp32_ble_mesh.MeshRoot.Reports.{status_message_id}
use esp32_ble_mesh.MeshRoot.Routing.{
  command_group, command_id, command_node, command_target, dispatch_command,
  handle_mqtt_ota_command, is_empty, is_nonempty, mqtt_dispatch, mqtt_handle_broadcast,
  mqtt_publish_status, publish_ack, wanted,
}
use esp32_ble_mesh.MeshRoot.Rules.{branch}
use esp32_ble_mesh.MeshRoot.State.{Config, Root, skip}
use esp32_ble_mesh.MeshRoot.Topics.{is_group_topic, new_ota_suffix, target_of}
use esp32_ble_mesh.MeshRoot.Updates.{mqtt_ota_command_outcome}

module _ (config : Config) where
  ack-Distinct :
      (now : ℕ) (id msg_id : List ℕ) (s : Root)
      → Keeps config s
      → Keeps config (publish_ack now id msg_id s).1
  unfolding publish_ack status_message_id
  ack-Distinct now id msg_id s v =
      branch (Keeps config) (not s.has_client) skip _ s (λ e. v) (λ e. v)

  status-Distinct :
      (name : List ℕ) (s : Root) → Keeps config s → Keeps config (mqtt_publish_status name s).1
  unfolding mqtt_publish_status
  status-Distinct name s v = branch (Keeps config) (not s.has_client) skip _ s (λ e. v) (λ e. v)

  broadcast-Distinct :
      (now now_us : ℕ) (table : List (List ℕ)) (on : Bool) (s : Root)
      → Keeps config s
      → Keeps config (mqtt_handle_broadcast config now now_us table on s).1
  unfolding mqtt_handle_broadcast
  broadcast-Distinct now now_us table on s v =
      refresh-Distinct config now now_us _
        (status-Distinct _ _ (group-Distinct config table on s v))

  node-Distinct :
      (now now_us : ℕ) (id msg_id : List ℕ) (on : Option Bool) (s : Root)
      → Keeps config s
      → Keeps config (command_node config now now_us id msg_id on s).1
  node-Distinct now now_us id msg_id none s v = v
  node-Distinct now now_us id msg_id (some on) s v =
      let done = node_cmd-Distinct config now now_us id on s v in
      branch (Keeps config) (is_nonempty msg_id) (publish_ack now id msg_id) skip
        (mqtt_handle_node_cmd config now now_us id on s).1 (λ e. ack-Distinct now id msg_id _ done)
        (λ e. done)

  group_command-Distinct :
      (now now_us : ℕ) (table : List (List ℕ)) (on : Option Bool) (s : Root)
      → Keeps config s
      → Keeps config (command_group config now now_us table on s).1
  group_command-Distinct now now_us table none s v = v
  group_command-Distinct now now_us table (some on) s v = broadcast-Distinct now now_us table on s v

  target-Distinct :
      (now now_us : ℕ) (target : Option (List ℕ)) (msg_id : List ℕ) (on : Option Bool) (s : Root)
      → Keeps config s
      → Keeps config (command_target config now now_us target msg_id on s).1
  target-Distinct now now_us none msg_id on s v = v
  target-Distinct now now_us (some []) msg_id on s v = v
  target-Distinct now now_us (some (c ∷ id)) msg_id on s v =
      node-Distinct now now_us (c ∷ id) msg_id on s v

  command-Distinct :
      (now now_us : ℕ) (table : List (List ℕ)) (topic payload stale : List ℕ) (s : Root)
      → Keeps config s
      → Keeps config (dispatch_command config now now_us table topic payload stale s).1
  unfolding dispatch_command
  command-Distinct now now_us table topic payload stale s v =
      branch (Keeps config) (is_group_topic topic)
        (command_group config now now_us table (wanted payload))
        (command_target config now now_us (target_of topic) (command_id payload stale)
          (wanted payload))
        s (λ e. group_command-Distinct now now_us table (wanted payload) s v)
        (λ e.
          target-Distinct now now_us (target_of topic) (command_id payload stale) (wanted payload) s
            v)

  update-Distinct :
      (topic payload : List ℕ) (s : Root)
      → Keeps config s
      → Keeps config (handle_mqtt_ota_command config topic payload s).1
  update-Distinct topic payload s v = elim (mqtt_ota_command_outcome config topic payload s) [
    | inl same ↦ rw same v
    | inr asked ↦ rw asked.1 v
  ]

  pub dispatch-Distinct :
      (now now_us : ℕ) (table : List (List ℕ)) (topic behind payload stale : List ℕ) (s : Root)
      → Keeps config s
      → Keeps config (mqtt_dispatch config now now_us table topic behind payload stale s).1
  unfolding mqtt_dispatch
  dispatch-Distinct now now_us table topic behind payload stale s v =
      let updated = (handle_mqtt_ota_command config topic payload s).1 in
      let kept = update-Distinct topic payload s v in
      branch (Keeps config) (is_empty topic || (is_empty payload || not s.is_root)) skip _ s
        (λ e. v)
        (λ e.
          branch (Keeps config) (ltb 511 (length payload)) skip _ s (λ f. v)
            (λ f.
              branch (Keeps config) (contains new_ota_suffix (c_string (topic ++ behind))) skip
                (dispatch_command config now now_us table topic payload stale) updated (λ g. kept)
                (λ g. command-Distinct now now_us table topic payload stale updated kept)))
