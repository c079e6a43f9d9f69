-- ===== src/StateMachine.antt =====
-- src/controller/state_machine.rs: the formal state machine of the life cycle.
pub mod Event
pub mod Context
pub mod Table
pub mod Driver
pub mod Graph
pub mod Lookup
pub mod Choice
pub mod Runs
