-- ===== src/Gateway.antt =====
-- esp_ble_mesh/provisioner/main/gateway_bridge.c: the bridge between MQTT and the BLE Mesh
-- provisioner, and its Wi-Fi provisioning.
pub mod Topic
pub mod Payload
pub mod State
pub mod Publish
pub mod Dispatch
pub mod Wifi
pub mod Button
mod Tests
