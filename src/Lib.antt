-- ===== src/Lib.antt =====
-- Verification of the firmware of a home-lighting system: a gateway that provisions lamps over BLE
-- Mesh and connects them to a cloud over MQTT, the lamps of that mesh, the root node of a Wi-Fi mesh
-- of lamps, and the updates of its firmware over the air.
--
-- Parts and how they interact
-- - Provisioner models esp_ble_mesh/provisioner/main/main.c. The lamps are entries of `nodes`; a
--   command to a lamp is an entry of `s_pending` until the lamp reports the wanted state. The mesh
--   stack calls back with provisioning, configuration and on/off events, the bridge with commands and
--   a request for all states.
-- - Gateway models esp_ble_mesh/provisioner/main/gateway_bridge.c. It reads commands from MQTT
--   messages and hands them to the provisioner's handler, publishes states and acknowledgements, and
--   brings the Wi-Fi up, with a provisioning window or with stored credentials.
-- - OnoffNode models esp_ble_mesh/onoff_models/onoff_server/main/main.c and board.c, the lamp that the
--   provisioner finds: its on/off server, its LED, and what it keeps in NVS.
-- - MeshRoot models the registry of nodes, the status reports, the light commands, the routing of
--   MQTT messages and the requests for updates of internal_communication/main/mesh_main.c.
-- - Ota models internal_communication/main/mesh_ota.c, which downloads an image that such a request
--   names, compares its SHA-256 and restarts into it.
-- - RgbLight models rgb_light/main/app_light.c and app_mqtt.c, a lamp with coloured LEDs that takes its
--   commands over MQTT itself.
--
-- Files
-- - Provisioner/State: the static variables and the calls that leave the program; Stage: the enum of
--   stages; Storage: farmely_store_progress, farmely_store_nodes, farmely_load_state; Nodes: the node
--   table; Requests: the requests to a node; Commands: farmely_send_onoff, farmely_send_group_onoff,
--   farmely_bridge_command, farmely_bridge_sync, the tasks and farmely_mesh_yield_radio;
--   Provisioning, ConfigClient, GenericClient: the three callbacks; Boot: ble_mesh_init and app_main.
-- - Provisioner/Machine: each callback, handler and task round is one step, in any order. Invariant
--   and Frame carry what every operation keeps; Rules are for branches, loops and writes.
-- - Gateway/Topic, Payload, Dispatch: valid_message_id, topic_device_id, parse_command,
--   dispatch_command, mqtt_event_handler; Publish: the three publishers; Wifi: mqtt_start,
--   wifi_event_handler, gateway_wifi_task, farmely_gateway_bridge_start; Button: prov_button_task.
-- - OnoffNode/Storage: farmely_load_node_state, farmely_store_node_state, farmely_reset_node_state;
--   Board: board_led_operation and board_init; Messages: example_change_led_state,
--   example_handle_gen_onoff_msg and the generic server's callback; Machine: the other callbacks and
--   app_main; Persist and Shown are about the flash and the LED.
-- - MeshRoot/Registry, Reports, Commands: the functions of mesh_main.c by their names; Fields:
--   json_string_field and json_extract_str; Topics and Routing: mqtt_dispatch,
--   handle_mqtt_ota_command and what they call; Machine: the operations in any order; Kept carries
--   what each keeps of the registry, and Effects and Obeyed what a command does to the lights.
-- - Ota/Hex: is_hex_sha256 to sha256_hex_to_bytes; Pending: the report over the restart and
--   mesh_ota_confirm_running; Task: http_event_handler and ota_task; Start: mesh_ota_start.
-- - RgbLight/Light: the functions of app_light.c; Commands: json_string, parse_hex_color,
--   handle_command, handle_ota and the publishers of app_mqtt.c; Machine: mqtt_event_handler,
--   heartbeat_cb and app_mqtt_start; Known, Strip and Shown follow the state and the LEDs.
-- - Base: numbers, lists, C strings and arrays.
--
-- State and calls
-- - A part's static variables are a record; an operation is a function from the record to a result and
--   the next record. An array is a function on indices and a pointer into it an index; loops stop at
--   the array's size, which is a parameter. Calls that leave the program are a log, newest first, and
--   what they answer is a parameter that may depend on the whole log.
-- - Integers are natural numbers; counters that wrap are reduced modulo their width.
-- - Loops are recursion on the number of entries left, so no fuel is needed. The button's loop, which
--   never ends, runs over the list of levels that are read.
-- - The loop of esp_https_ota_perform runs over the list of answers of the update library, and has no
--   result while they all say "in progress".
-- - A flash is a value that the calls of NVS read and change; those calls are a record, and what is
--   relied on of them is a second record of laws.
-- - A C string is the list of its bytes before the terminating zero.
--
-- Not modelled
-- - ESP-IDF, NVS, PSA, FreeRTOS, cJSON and the C library's sscanf are parameters. The model pointers
--   of the mesh clients are taken as set, so example_ble_mesh_set_msg_common does not fail.
--   nvs_flash_init of the provisioner is taken to succeed, and the calls of the LED strip, once it is
--   there, as well. `mesh_layer` is that of a node that has joined, and not negative.
-- - Callbacks and tasks interleave between rounds and not within one; what runs while a task sleeps is
--   an argument.
-- - JSON texts are records of the fields that are printed, and are not cut at their buffers. The
--   credentials and last will of the MQTT client, the provisioning service's name, the custom-data
--   endpoint and handlers that only log are left out, and so is the bench self-test of the provisioner.
-- - Of mesh_main.c the mesh and IP events, the life of the MQTT client, the receive task and the
--   status of updates are left out; mesh_ota_start is there a call that leaves the file. The on/off
--   node is modelled with a plain LED. The update code of the RGB light and of the camera is that of
--   mesh_ota.c again.
mod Base
pub mod Provisioner
pub mod Gateway
pub mod MeshRoot
pub mod OnoffNode
pub mod Ota
pub mod RgbLight
