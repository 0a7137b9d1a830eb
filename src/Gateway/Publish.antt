-- ===== src/Gateway/Publish.antt =====
-- What esp_ble_mesh/provisioner/main/gateway_bridge.c publishes. `now` is the answer of `time`.
pub mod Ids
use esp32_ble_mesh.Base.{
  Bool, List, [], codes, false, if◌then◌else◌, ltb, not, take, true, ℕ, ◌%◌, ◌++◌, ◌+◌, ◌^◌, ◌||◌,
  ◌∷◌,
}
use esp32_ble_mesh.Gateway.State.{
  M, MessageId, ack, emit, gateway, get, legacy_status, modify, published, pure, skip, status,
  ◌>>=◌, ◌>>◌,
}

-- `unix_timestamp`: 0 until the clock is set.
unfoldable pub unix_timestamp : ℕ → ℕ
unix_timestamp now = if ltb 1700000000 now then now else 0

-- `message_id`: the sequence number is a 32-bit counter.
unfoldable pub next_message_id : List ℕ → M MessageId
next_message_id device_id = do
  modify (λ s. record s { sequence = (s.sequence + 1) % 2 ^ 32 })
  s ← get
  pure (record { device_id = device_id; boot_nonce = s.boot_nonce; sequence = s.sequence })

-- "<prefix><id><suffix>" in a buffer of 96 bytes.
abbrev pub topic_of : (prefix id suffix : List ℕ) → List ℕ
topic_of prefix id suffix = take 95 (prefix ++ (id ++ suffix))

-- `farmely_gateway_bridge_publish_node_status`.
unfoldable pub publish_node_status : ℕ → List ℕ → Bool → Bool → M (Unit {0})
unfolding next_message_id unix_timestamp
publish_node_status now device_id on online = do
  s ← get
  if not s.mqtt_connected then skip else do
    id ← next_message_id device_id
    emit (
        published (topic_of (codes "farmely/light/") device_id (codes "/up/status"))
          (status id (unix_timestamp now) online on) 1 true)
    emit (
        published (topic_of (codes "office/light/node/") device_id (codes "/status"))
          (legacy_status device_id online on) 1 true)

abbrev pub is_empty : List ℕ → Bool
is_empty [] = true
is_empty (_ ∷ _) = false

-- `farmely_gateway_bridge_publish_ack`: a command without a message id is not acknowledged.
unfoldable pub publish_ack : ℕ → List ℕ → List ℕ → M (Unit {0})
unfolding next_message_id unix_timestamp
publish_ack now device_id incoming_message_id = do
  s ← get
  if not s.mqtt_connected || is_empty incoming_message_id then skip else do
    id ← next_message_id device_id
    emit (
        published (topic_of (codes "farmely/light/") device_id (codes "/up/event"))
          (ack id (unix_timestamp now) incoming_message_id) 1 false)

-- `farmely_gateway_bridge_publish_gateway_status`.
unfoldable pub publish_gateway_status : ℕ → ℕ → M (Unit {0})
unfolding next_message_id unix_timestamp
publish_gateway_status now node_count = do
  s ← get
  if not s.mqtt_connected then skip else do
    id ← next_message_id s.gateway_id
    emit (published s.gateway_topic (gateway id (unix_timestamp now) node_count) 1 true)
