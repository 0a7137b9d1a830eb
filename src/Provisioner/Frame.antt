-- ===== src/Provisioner/Frame.antt =====
-- The acknowledgements and the stage over all that esp_ble_mesh/provisioner/main/main.c does.
pub mod Defs
pub mod Operations
pub mod Commands
pub mod Callbacks
pub mod Replies
pub mod Confirm
pub mod Recorded
