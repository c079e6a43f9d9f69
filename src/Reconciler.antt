-- ===== src/Reconciler.antt =====
-- src/controller/reconciler.rs.
pub mod Actions
pub mod Loop
pub mod Moves
pub mod Footprint
pub mod Steady
pub mod Finalizer
pub mod Machine
pub mod Policy
pub mod Agreement
pub mod Settles
pub mod Stale
pub mod Returns
pub mod Generations
pub mod Script
pub mod Counts
