-- ===== src/MeshRoot/Kept.antt =====
-- What the operations of internal_communication/main/mesh_main.c do to the addresses of the registry.
pub mod Operations
pub mod Messages
