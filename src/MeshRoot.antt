-- ===== src/MeshRoot.antt =====
-- internal_communication/main/mesh_main.c: the registry of nodes that the root of the Wi-Fi mesh keeps,
-- and the commands that it sends them.
pub mod State
pub mod Rules
pub mod Registry
pub mod Reports
pub mod Commands
pub mod Fields
pub mod Topics
pub mod Routing
pub mod Lookup
pub mod Machine
pub mod Status
pub mod Expiry
pub mod Addressed
pub mod FieldText
pub mod TopicText
pub mod Effects
pub mod Obeyed
pub mod Routed
pub mod Updates
pub mod Kept
pub mod Unique
mod Tests
