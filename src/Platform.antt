-- ===== src/Platform.antt =====
-- What the controller works on: the API server and the clock, which are parameters, and the actions
-- that the source performs on them. Each request is logged, so that a theorem can say what was
-- asked of the cluster.
pub mod Requests
pub mod Exec
pub mod Events
pub mod Contracts
pub mod Reaches
pub mod Outcomes
pub mod Traces
pub mod Emits
