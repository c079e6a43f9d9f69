-- ===== src/UnitTests.antt =====
-- The unit tests of the source files, each as a Boolean that is true when its assertions hold.
pub mod Contains
pub mod StateMachine
pub mod Validation
pub mod Policies
pub mod Server
pub mod Health
