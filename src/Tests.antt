-- ===== src/Tests.antt =====
-- The theorems at concrete inputs.
pub mod Sample
pub mod Platforms
pub mod Machine
pub mod Checks
pub mod Admissions
pub mod Objects
pub mod Visits
pub mod Scripts
pub mod Provisions
pub mod Crowds
pub mod Server
pub mod Clusters
pub mod Processes
pub mod Controllers
