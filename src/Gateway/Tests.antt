-- ===== src/Gateway/Tests.antt =====
-- Concrete runs of the bridge of esp_ble_mesh/provisioner/main/gateway_bridge.c.
use esp32_ble_mesh.Base.{
  List, [], arith, codes, eq_bytes, false, if◌then◌else◌, length, none, refl, replicate, some, true,
  ℕ, ◌++◌, ◌<◌, ◌↔◌, ◌∷◌, ◌≡◌, ◌≤◌, ◌⊎◌,
}
use esp32_ble_mesh.Gateway.Button.{button_restarts}
use esp32_ble_mesh.Gateway.Button.Hold.{LongPress, button_restarts_iff}
use esp32_ble_mesh.Gateway.Dispatch.{mqtt_event_handler, received}
use esp32_ble_mesh.Gateway.Dispatch.Commands.{HandedOn, commands, mqtt_event_handler-commands}
use esp32_ble_mesh.Gateway.Payload.{CJson, id_size, parse_command}
use esp32_ble_mesh.Gateway.Payload.SafeText.{all_plain, parse_command-plain_id}
use esp32_ble_mesh.Gateway.Publish.Ids.{
  Numbered, Report, of_gateway, of_node, publish_all, publish_all-Numbered,
}
use esp32_ble_mesh.Gateway.State.{Bridge, Env, zeroed}
use esp32_ble_mesh.Gateway.Topic.{
  legacy_prefix, legacy_suffix, normalized_prefix, normalized_suffix, topic_device_id,
}
use esp32_ble_mesh.Gateway.Topic.Bounds.{topic_device_id-fits}
use esp32_ble_mesh.Gateway.Topic.RoundTrip.{topic_device_id-topic}
use esp32_ble_mesh.Gateway.Wifi.{bridge_start, gateway_wifi_task, sta_disconnected, sta_start}
use esp32_ble_mesh.Gateway.Wifi.Override.{connects, handle_all, override_never_connects}
use esp32_ble_mesh.Gateway.Wifi.Radio.{gateway_wifi_task-radio, portal_open, yielded}

abbrev succeeding : Env
succeeding = record {
  mqtt_uri = codes "mqtt://broker";
  wifi_ssid = codes "lab";
  succeeds = λ outs call. true;
  ap_channel = λ outs. 6;
}

button_restarts_iff_example :
    (button_restarts (true ∷ replicate 30 false) ≡ true) ↔ LongPress (true ∷ replicate 30 false)
button_restarts_iff_example = button_restarts_iff (true ∷ replicate 30 false)

abbrev lamp_id : List ℕ
lamp_id = codes "light-0A1B2C"

abbrev lamp_topic : List ℕ
lamp_topic = normalized_prefix ++ (lamp_id ++ normalized_suffix)

topic_device_id-topic_example :
    (topic_device_id (codes "gw-1") lamp_topic 32 ≡ some lamp_id)
    × (topic_device_id (codes "gw-1") (legacy_prefix ++ (lamp_id ++ legacy_suffix)) 32
        ≡ some lamp_id)
topic_device_id-topic_example =
    topic_device_id-topic (codes "gw-1") lamp_id 32 (omega arith) (omega arith)

lamp_topic_id : topic_device_id (codes "gw-1") lamp_topic 32 ≡ some lamp_id
lamp_topic_id = (topic_device_id-topic (codes "gw-1") lamp_id 32 (omega arith) (omega arith)).0

topic_device_id-fits_example : (0 < length lamp_id) × (length lamp_id < 32)
topic_device_id-fits_example =
    topic_device_id-fits (codes "gw-1") lamp_topic 32 lamp_id (omega arith) lamp_topic_id

-- A cJSON whose one text is an object without members.
abbrev empty_objects : CJson
empty_objects = record {
  Node = Unit {0};
  parse = λ text. if eq_bytes text (codes "{}") then some tt else none;
  get_item = λ node name. none;
  is_object = λ node. true;
  is_bool = λ node. false;
  is_true = λ node. false;
  string_value = λ node. none;
}

abbrev online : Bridge
online = record zeroed { gateway_id = codes "gw-1"; has_command_handler = true }

mqtt_event_handler-commands_example :
    let t = (mqtt_event_handler empty_objects (received lamp_topic (codes "ON")) online).1 in
    (commands t.outs ≡ commands online.outs)
    ⊎ HandedOn empty_objects (received lamp_topic (codes "ON")) online t
mqtt_event_handler-commands_example =
    mqtt_event_handler-commands empty_objects (received lamp_topic (codes "ON")) online

gateway_wifi_task-radio_example :
    let r = gateway_wifi_task succeeding false zeroed in
    (r.0 ≡ none) ⊎ ((yielded r.1.outs ≡ false) × (portal_open r.1.outs ≡ false))
gateway_wifi_task-radio_example = gateway_wifi_task-radio succeeding false zeroed refl refl

override_never_connects_example :
    connects
      (handle_all succeeding
        (sta_start ∷ sta_disconnected ∷ [])
        (bridge_start succeeding (codes "gw-1") true true 7 zeroed).1).outs
    ≡ 0
override_never_connects_example =
    override_never_connects succeeding (codes "gw-1") true true 7
      (sta_start ∷ sta_disconnected ∷ []) refl refl

abbrev connected_bridge : Bridge
connected_bridge = record online { mqtt_connected = true }

abbrev two_reports : List Report
two_reports = of_node 0 lamp_id true true ∷ of_gateway 0 1 ∷ []

publish_all-Numbered_example :
    (n : ℕ) × (n ≤ length two_reports)
    × ((connected_bridge.mqtt_connected ≡ true) ⊎ (n ≡ 0))
    × Numbered n connected_bridge (publish_all two_reports connected_bridge)
publish_all-Numbered_example = publish_all-Numbered two_reports connected_bridge (omega arith)

parse_command-plain_id_example :
    (all_plain (parse_command empty_objects (codes "{}")).1 ≡ true)
    × (length (parse_command empty_objects (codes "{}")).1 < id_size)
parse_command-plain_id_example = parse_command-plain_id empty_objects (codes "{}")
