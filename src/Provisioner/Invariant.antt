-- ===== src/Provisioner/Invariant.antt =====
-- The invariant of the static variables of esp_ble_mesh/provisioner/main/main.c, operation by
-- operation.
pub mod Defs
pub mod Operations
pub mod Commands
pub mod Callbacks
pub mod Replies
