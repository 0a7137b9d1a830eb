-- ===== src/OnoffNode/Shown.antt =====
-- The LED of esp_ble_mesh/onoff_models/onoff_server/main/board.c beside the state of the on/off server
-- of main.c.
pub mod Lit
pub mod Events
pub mod Restart
pub mod Server
pub mod Survive
pub mod Lamp
pub mod Remembers
pub mod Restored
