-- ===== src/Gateway/Dispatch.antt =====
-- The MQTT side of esp_ble_mesh/provisioner/main/gateway_bridge.c: incoming commands and the state of
-- the connection.
pub mod Commands
use esp32_ble_mesh.Base.{
  Bool, List, Option, c_string, codes, false, if◌then◌else◌, leb, length, none, some, true, ℕ, ◌==◌,
  ◌||◌,
}
use esp32_ble_mesh.Gateway.Payload.{CJson, parse_command}
use esp32_ble_mesh.Gateway.State.{
  M, called_command, called_sync, emit, get, modify, skip, subscribed, ◌>>=◌, ◌>>◌,
}
use esp32_ble_mesh.Gateway.Topic.{topic_device_id}

-- An event of the MQTT client; the bytes are `event->topic` and `event->data` at their lengths.
pub data MqttEvent : Type 0 where
  connected disconnected other_event : MqttEvent
  received : (topic data_bytes : List ℕ) → MqttEvent

-- The sizes of the buffers of `dispatch_command`.
abbrev pub topic_size : ℕ
topic_size = 128

abbrev pub payload_size : ℕ
payload_size = 512

abbrev pub device_id_size : ℕ
device_id_size = 32

module _ (json : CJson) where
  -- The command in a message that fits the buffers: the device, the wanted state and the id.
  unfoldable pub read_command :
      (gateway_id topic payload : List ℕ) → Option (List ℕ × Bool × List ℕ)
  unfolding topic_device_id parse_command
  read_command gateway_id topic payload = elim (topic_device_id gateway_id topic device_id_size) [
    | none ↦ none
    | some device ↦ elim (parse_command json payload).0 [
      | none ↦ none
      | some on ↦ some (device, on, (parse_command json payload).1)
    ]
  ]

  abbrev pub handed_on : Bool → Option (List ℕ × Bool × List ℕ) → M (Unit {0})
  handed_on has_handler none = skip
  handed_on has_handler (some (device, on, id)) =
      if has_handler then emit (called_command device on id) else skip

  -- `dispatch_command`.
  unfoldable pub dispatch_command : (topic payload : List ℕ) → M (Unit {0})
  unfolding read_command
  dispatch_command topic payload =
      if (length topic == 0)
        || (leb topic_size (length topic)
            || ((length payload == 0) || leb payload_size (length payload)))
      then skip
      else do
        s ← get
        handed_on s.has_command_handler
            (read_command s.gateway_id (c_string topic) (c_string payload))

  -- `mqtt_event_handler`.
  unfoldable pub mqtt_event_handler : MqttEvent → M (Unit {0})
  unfolding dispatch_command
  mqtt_event_handler connected = do
    modify (λ s. record s { mqtt_connected = true })
    emit (subscribed (codes "farmely/light/+/down/cmd"))
    emit (subscribed (codes "farmely/gateway/+/down/cmd"))
    emit (subscribed (codes "office/light/all/cmd"))
    emit (subscribed (codes "office/light/node/+/cmd"))
    s ← get
    if s.has_sync_handler then emit called_sync else skip
  mqtt_event_handler (received topic payload) = dispatch_command topic payload
  mqtt_event_handler disconnected = modify (λ s. record s { mqtt_connected = false })
  mqtt_event_handler other_event = skip
