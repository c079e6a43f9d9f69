-- ===== src/Resources.antt =====
-- src/resources/common.rs: the labels, the owner reference and the three objects that the operator
-- makes for a resource.
pub mod Types
pub mod Generate
pub mod Labels
pub mod Selection
pub mod Readback
