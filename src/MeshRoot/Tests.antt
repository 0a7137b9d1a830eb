-- ===== src/MeshRoot/Tests.antt =====
-- Concrete runs of the registry of internal_communication/main/mesh_main.c.
use esp32_ble_mesh.Base.{
  List, [], arith, codes, eq_bytes, false, refl, some, true, update, ℕ, ◌++◌, ◌<◌, ◌∷◌, ◌≡◌, ◌⊎◌,
}
use esp32_ble_mesh.MeshRoot.Addressed.{SentTo, Unsent, node_cmd-SentTo}
use esp32_ble_mesh.MeshRoot.Commands.{mqtt_handle_node_cmd}
use esp32_ble_mesh.MeshRoot.Effects.{Switched}
use esp32_ble_mesh.MeshRoot.Expiry.{Silent, nodes-root_expire_stale_nodes}
use esp32_ble_mesh.MeshRoot.FieldText.{Read, json_string_field-Read}
use esp32_ble_mesh.MeshRoot.Fields.{json_string_field}
use esp32_ble_mesh.MeshRoot.Machine.{Step, refresh_self, run, status_packet}
use esp32_ble_mesh.MeshRoot.Registry.{entry_of, free_entry, node_find_or_add, node_id}
use esp32_ble_mesh.MeshRoot.Reports.{
  recorded, refreshed, rewrite_entry, root_expire_stale_nodes, root_handle_node_status,
  root_publish_node_status, root_refresh_self,
}
use esp32_ble_mesh.MeshRoot.Routed.{any_gateway_commands}
use esp32_ble_mesh.MeshRoot.Routing.{handle_mqtt_ota_command, mqtt_dispatch, wanted}
use esp32_ble_mesh.MeshRoot.State.{Config, Root, StatusPacket, no_entry}
use esp32_ble_mesh.MeshRoot.Status.{Assigned, Full, Reported, Unknown, handle_status_outcome}
use esp32_ble_mesh.MeshRoot.TopicText.{gateway_topic}
use esp32_ble_mesh.MeshRoot.Topics.{new_light_prefix, new_ota_suffix}
use esp32_ble_mesh.MeshRoot.Unique.{run_registry_distinct}
use esp32_ble_mesh.MeshRoot.Updates.{Updated, mqtt_ota_command_outcome, named}

abbrev build : Config
build = record {
  max_nodes = 2;
  product_id = codes "P1";
  hw_version = codes "A";
  firmware_version = codes "1.0";
}

-- The root before any report.
abbrev fresh : Root
fresh = record {
  nodes = λ i. no_entry;
  self_mac = 1 ∷ 2 ∷ 3 ∷ 4 ∷ 5 ∷ 6 ∷ [];
  light_state = 0;
  layer = 1;
  is_root = true;
  has_client = true;
  boot_nonce = 9;
  sequence = 0;
  outs = [];
}

abbrev lamp_mac : List ℕ
lamp_mac = 1 ∷ 2 ∷ 3 ∷ 0xaa ∷ 0xbb ∷ 0xcc ∷ []

abbrev report : StatusPacket
report = record {
  on = 1;
  mac = lamp_mac;
  layer = 2;
  is_root = 0;
  device_type = codes "light_bulb";
  product_id = codes "P1";
  hw_version = codes "A";
  fw_version = codes "1.0";
}

abbrev reports : List Step
reports = status_packet 0 5 lamp_mac report 162 ∷ refresh_self 0 6 ∷ []

handle_status_outcome_example :
    let t = (root_handle_node_status build 0 5 lamp_mac report 162 fresh).1 in
    ((t ≡ fresh) × Full build fresh.nodes × Unknown build lamp_mac fresh.nodes)
    ⊎ ((i : ℕ) × (i < build.max_nodes)
        × Assigned build lamp_mac i fresh.nodes
        × Reported 5 lamp_mac report i t
        × ((j : ℕ) → t.nodes j ≡ update fresh.nodes i (t.nodes i) j))
handle_status_outcome_example = handle_status_outcome build 0 5 lamp_mac report 162 fresh

-- A lamp that was last heard of at the start.
abbrev silent : Root
silent = record fresh {
  nodes = update fresh.nodes 1 (record no_entry { used = true; online = true; mac = lamp_mac });
}

nodes-root_expire_stale_nodes_example :
    let t = (root_expire_stale_nodes build 0 31000000 silent).1 in
    (Silent 31000000 (silent.nodes 1) → t.nodes 1 ≡ record (silent.nodes 1) { online = false })
    × (¬ Silent 31000000 (silent.nodes 1) → t.nodes 1 ≡ silent.nodes 1)
nodes-root_expire_stale_nodes_example =
    nodes-root_expire_stale_nodes build 0 31000000 silent 1 (omega arith)

-- The entry that the lamp has after its report.
abbrev lamp_entry : ℕ
lamp_entry = 0

in_use : ((run build reports fresh).nodes lamp_entry).used ≡ true
unfolding run root_handle_node_status root_refresh_self node_find_or_add rewrite_entry
    root_publish_node_status recorded refreshed update entry_of free_entry
in_use = refl

run_registry_distinct_example : lamp_entry ≡ lamp_entry
run_registry_distinct_example =
    run_registry_distinct build reports fresh lamp_entry lamp_entry (λ k. refl) (omega arith)
      (omega arith) in_use in_use refl

not_the_root : eq_bytes (node_id lamp_mac) (node_id silent.self_mac) ≡ false
not_the_root = refl

node_cmd-SentTo_example :
    let t = (mqtt_handle_node_cmd build 0 7 (node_id lamp_mac) true silent).1 in
    ((t.outs ≡ silent.outs) × Unsent build (node_id lamp_mac) silent)
    ⊎ ((i : ℕ) × (i < build.max_nodes) × SentTo i (node_id lamp_mac) true silent t)
node_cmd-SentTo_example = node_cmd-SentTo build 0 7 (node_id lamp_mac) true silent not_the_root

-- A command in the form of the cloud service.
abbrev envelope : List ℕ
envelope = codes "{\"msg_id\":\"m1\",\"data\":{\"on\":true}}"

any_gateway_commands_example :
    Switched
      (lamp_mac ∷ [])
      (wanted envelope)
      silent
      (mqtt_dispatch build 0 7
        (lamp_mac ∷ [])
        (gateway_topic (codes "other"))
        []
        envelope
        []
        silent).1
any_gateway_commands_example =
    any_gateway_commands build 0 7 (lamp_mac ∷ []) [] envelope [] silent b'o' (codes "ther") refl
      (omega arith) (omega arith) refl

-- An update of the lamp.
abbrev update_text : List ℕ
update_text = codes "{\"url\": \"https://h/f\",\"sha256\":\"00\"}"

abbrev update_topic : List ℕ
update_topic = new_light_prefix ++ (node_id lamp_mac ++ new_ota_suffix)

mqtt_ota_command_outcome_example :
    Updated build update_topic
      (named build update_topic update_text silent)
      silent
      (handle_mqtt_ota_command build update_topic update_text silent).1
mqtt_ota_command_outcome_example = mqtt_ota_command_outcome build update_topic update_text silent

url_read : json_string_field update_text (codes "url") 256 ≡ some (codes "https://h/f")
unfolding json_string_field
url_read = refl

json_string_field-Read_example : Read update_text (codes "url") 256 (codes "https://h/f")
json_string_field-Read_example =
    json_string_field-Read update_text (codes "url") 256 (codes "https://h/f") (omega arith)
      url_read
