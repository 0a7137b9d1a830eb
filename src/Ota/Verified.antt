-- ===== src/Ota/Verified.antt =====
-- What internal_communication/main/mesh_ota.c has checked of an image that it restarts into.
pub mod Hashed
pub mod Checked
