-- ===== src/MeshRoot/Routing.antt =====
-- The routing of MQTT messages in internal_communication/main/mesh_main.c.
use Prim.Native.Nat.{max}
use esp32_ble_mesh.Base.{
  Bool, List, Option, [], c_string, codes, contains, false, if◌then◌else◌, length, ltb, none, not,
  or_empty, some, strlcpy, strstr, take, true, ℕ, ◌++◌, ◌==◌, ◌||◌, ◌∷◌,
}
use esp32_ble_mesh.MeshRoot.Commands.{mesh_broadcast_ctl, mqtt_handle_node_cmd, parse_on_off}
use esp32_ble_mesh.MeshRoot.Fields.{json_extract_str, json_string_field}
use esp32_ble_mesh.MeshRoot.Registry.{node_find_by_id}
use esp32_ble_mesh.MeshRoot.Reports.{or_default, root_refresh_self, status_message_id, unix_ts_s}
use esp32_ble_mesh.MeshRoot.State.{
  Config, M, OtaCommand, ack, emit, event_status, get, published, sent_ota, skip, started_ota,
  ◌>>=◌, ◌>>◌,
}
use esp32_ble_mesh.MeshRoot.Topics.{
  between, id_that_fits, is_group_topic, is_some, new_gateway_prefix, new_light_prefix,
  new_ota_suffix, or_else, publish_topic, target_of,
}

-- The state that a JSON envelope asks for.
unfoldable pub envelope_on : List ℕ → Option Bool
envelope_on text =
    let place = or_empty (or_else (strstr (codes "\"data\"") text) (some text)) in
    if contains (codes "\"on\":true") place
    then some true
    else if contains (codes "\"on\":false") place
    then some false
    else none

abbrev first_is_brace : List ℕ → Bool
first_is_brace [] = false
first_is_brace (c ∷ s) = c == b'{'

-- `on` and `have_on`: the envelope's, or else that of a plain payload.
unfoldable pub wanted : List ℕ → Option Bool
wanted payload =
    let plain = parse_on_off payload in
    if first_is_brace payload
    then elim (envelope_on (c_string payload)) [ some on ↦ some on | none ↦ plain ]
    else plain

-- `msg_id_buf`: 126 bytes at most, else it stays empty. `stale` is what the buffer held behind the
-- payload.
unfoldable pub command_id : (payload stale : List ℕ) → List ℕ
command_id payload stale =
    if first_is_brace payload
    then elim (json_extract_str (payload ++ (0 ∷ stale)) (codes "\"msg_id\"")) [
      | some id ↦ if ltb (length id) 127 then id else []
      | none ↦ []
    ]
    else []

-- `publish_ack`.
unfoldable pub publish_ack : ℕ → List ℕ → List ℕ → M (Unit {0})
publish_ack now device_id original_msg_id = do
  s ← get
  if not s.has_client then skip else do
    message_id ← status_message_id device_id
    emit (
        published (take 79 (codes "farmely/light/" ++ (device_id ++ codes "/up/event")))
          (ack message_id (unix_ts_s now) original_msg_id))

-- `mqtt_publish_status`.
unfoldable pub mqtt_publish_status : List ℕ → M (Unit {0})
mqtt_publish_status name = do
  s ← get
  if not s.has_client
      then skip
      else emit (published publish_topic (event_status name s.is_root s.layer))

abbrev pub is_nonempty : List ℕ → Bool
is_nonempty [] = false
is_nonempty (c ∷ s) = true

abbrev pub is_empty : List ℕ → Bool
is_empty [] = true
is_empty (c ∷ s) = false

module _ (config : Config) where
  -- `mqtt_handle_broadcast`; `table` is the routing table that the mesh stack gives.
  unfoldable pub mqtt_handle_broadcast : (now now_us : ℕ) → List (List ℕ) → Bool → M (Unit {0})
  mqtt_handle_broadcast now now_us table on = do
    mesh_broadcast_ctl table on
    mqtt_publish_status (if on then codes "cmd_on" else codes "cmd_off")
    root_refresh_self config now now_us

  -- The end of `mesh_forward_ota_request`, with the entry that was found.
  abbrev pub forward_to : OtaCommand → Option ℕ → M (Unit {0})
  forward_to command none = skip
  forward_to command (some i) = do s ← get; emit (sent_ota (s.nodes i).addr command)

  -- `mesh_forward_ota_request`; the fields of the command fit, since they come from buffers of the same
  -- sizes.
  unfoldable pub mesh_forward_ota_request : List ℕ → OtaCommand → M (Unit {0})
  mesh_forward_ota_request target_id command = do
    s ← get
    if not s.is_root then skip else forward_to command (node_find_by_id config s.nodes target_id)

  -- A buffer of `handle_mqtt_ota_command` after the field with this name.
  abbrev pub read_field : List ℕ → List ℕ → ℕ → List ℕ → List ℕ
  read_field payload key max old = elim (json_string_field payload key max) [
    | some value ↦ value
    | none ↦ old
  ]

  -- What `handle_mqtt_ota_command` reads of the payload.
  abbrev pub ota_command : List ℕ → List ℕ → OtaCommand
  ota_command mac text = record {
    mac = mac;
    url = read_field text (codes "url") 256 [];
    sha256 = read_field text (codes "sha256") 65 [];
    fw_version = read_field text (codes "fw_version") 64 [];
    ota_msg_id = read_field text (codes "message_id") 128 (read_field text (codes "msg_id") 128 []);
    product_id =
        or_default (read_field text (codes "product_id") 32 []) (strlcpy config.product_id 32);
    hw_version =
        or_default (read_field text (codes "hw_version") 32 []) (strlcpy config.hw_version 32);
  }

  -- `handle_mqtt_ota_command` once the id of the topic fits.
  unfoldable pub run_ota_command : (is_gateway : Bool) → List ℕ → List ℕ → M (Unit {0})
  run_ota_command is_gateway topic_id payload = do
    s ← get
    let command = ota_command s.self_mac (c_string payload)
    if is_empty command.url || is_empty command.sha256
        then skip
        else (if is_gateway
            then emit (started_ota command.url command.sha256 command.fw_version command.ota_msg_id)
            else mesh_forward_ota_request topic_id command)

  abbrev pub ota_for : (is_gateway : Bool) → List ℕ → Option (List ℕ) → M (Unit {0})
  ota_for is_gateway payload none = skip
  ota_for is_gateway payload (some id) = run_ota_command is_gateway id payload

  -- `handle_mqtt_ota_command`; `mesh_ota_start` is a call that leaves the file.
  unfoldable pub handle_mqtt_ota_command : (topic payload : List ℕ) → M (Unit {0})
  handle_mqtt_ota_command topic payload = do
    s ← get
    if not s.is_root
        then skip
        else (let to_gateway = between new_gateway_prefix new_ota_suffix topic in
            if is_some to_gateway
            then ota_for true payload (id_that_fits to_gateway)
            else ota_for false payload
                (id_that_fits (between new_light_prefix new_ota_suffix topic)))

  -- The last part of `mqtt_dispatch`: a command to one node, and its acknowledgement.
  abbrev pub command_node : (now now_us : ℕ) → (id msg_id : List ℕ) → Option Bool → M (Unit {0})
  command_node now now_us id msg_id none = skip
  command_node now now_us id msg_id (some on) = do
    mqtt_handle_node_cmd config now now_us id on
    if is_nonempty msg_id then publish_ack now id msg_id else skip

  abbrev pub command_group : (now now_us : ℕ) → List (List ℕ) → Option Bool → M (Unit {0})
  command_group now now_us table none = skip
  command_group now now_us table (some on) = mqtt_handle_broadcast now now_us table on

  abbrev pub command_target :
      (now now_us : ℕ) → Option (List ℕ) → List ℕ → Option Bool → M (Unit {0})
  command_target now now_us none msg_id on = skip
  command_target now now_us (some []) msg_id on = skip
  command_target now now_us (some (c ∷ id)) msg_id on = command_node now now_us (c ∷ id) msg_id on

  -- `mqtt_dispatch` behind the path of updates.
  unfoldable pub dispatch_command :
      (now now_us : ℕ) → List (List ℕ) → (topic payload stale : List ℕ) → M (Unit {0})
  dispatch_command now now_us table topic payload stale =
      if is_group_topic topic
      then command_group now now_us table (wanted payload)
      else command_target now now_us (target_of topic) (command_id payload stale) (wanted payload)

  -- `mqtt_dispatch`. The topic is not terminated: `behind` is what stands behind it in the client's
  -- buffer, up to a zero.
  unfoldable pub mqtt_dispatch :
      (now now_us : ℕ) → List (List ℕ) → (topic behind payload stale : List ℕ) → M (Unit {0})
  mqtt_dispatch now now_us table topic behind payload stale = do
    s ← get
    if is_empty topic || (is_empty payload || not s.is_root)
        then skip
        else (if ltb 511 (length payload) then skip else (do
          handle_mqtt_ota_command topic payload
          if contains new_ota_suffix (c_string (topic ++ behind))
              then skip
              else dispatch_command now now_us table topic payload stale))
