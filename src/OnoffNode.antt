-- ===== src/OnoffNode.antt =====
-- esp_ble_mesh/onoff_models/onoff_server/main/main.c and board.c: the light node of the BLE mesh, its
-- saved state, its LED and its on/off server.
pub mod State
pub mod Board
pub mod Storage
pub mod Messages
pub mod Machine
pub mod Persist
pub mod Shown
mod Tests
