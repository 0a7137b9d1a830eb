-- ===== src/Provisioner.antt =====
-- esp_ble_mesh/provisioner/main/main.c: the gateway's BLE Mesh provisioner, part by part.
pub mod State
pub mod Rules
pub mod Stage
pub mod Storage
pub mod Nodes
pub mod Requests
pub mod Commands
pub mod Provisioning
pub mod ConfigClient
pub mod GenericClient
pub mod Boot
pub mod Invariant
pub mod Frame
pub mod Machine
mod Tests
