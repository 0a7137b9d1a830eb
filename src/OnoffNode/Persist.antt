-- ===== src/OnoffNode/Persist.antt =====
-- What the flash holds of the variables of esp_ble_mesh/onoff_models/onoff_server/main/main.c.
pub mod Laws
pub mod Frames
pub mod Reboot
