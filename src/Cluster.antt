-- ===== src/Cluster.antt =====
-- The operator in a cluster: a stored resource, the visits of src/controller/reconciler.rs, the
-- users and the admission webhook of src/webhooks. The API server is a parameter with its
-- documented behaviour.
pub mod Store
pub mod Visit
pub mod System
pub mod Lives
pub mod Touch
pub mod Owned
pub mod Provision
pub mod Rollout
pub mod Crowd
