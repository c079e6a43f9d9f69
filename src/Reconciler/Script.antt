-- ===== src/Reconciler/Script.antt =====
-- The requests of a visit of src/controller/reconciler.rs, phase by phase, stated without its code.
pub mod Actions
pub mod Stops
pub mod Notices
pub mod Branches
pub mod Visit
pub mod Plan
