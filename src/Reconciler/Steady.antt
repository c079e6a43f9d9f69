-- ===== src/Reconciler/Steady.antt =====
-- What `reconcile` of src/controller/reconciler.rs achieves on a platform that answers: one whose
-- writes succeed and whose deployment has the same status at every read. The pure function `decide`
-- is the specification.
pub mod Actions
pub mod Phases
pub mod Visit
pub mod Refused
pub mod Gauges
