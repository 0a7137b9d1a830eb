-- ===== src/Ota.antt =====
-- internal_communication/main/mesh_ota.c: firmware updates over the air, checked against a SHA-256.
pub mod State
pub mod Hex
pub mod Pending
pub mod Task
pub mod Start
pub mod Digits
pub mod Verified
pub mod Ends
pub mod Report
pub mod Retry
mod Tests
