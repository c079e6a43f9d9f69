-- ===== src/Webhooks.antt =====
-- src/webhooks: the admission webhook, its policies and its handler.
pub mod Policies
pub mod Server
pub mod Listener
