-- ===== src/StateMachine/Event.antt =====
-- `ResourceEvent` of src/controller/state_machine.rs.
use k8s_operator_template.Prelude.{String, Bool, true, false}

pub data ResourceEvent : Type 0 where
  resources_applied all_replicas_ready replicas_degraded spec_changed : ResourceEvent
  reconcile_error deletion_requested recovery_initiated fully_recovered : ResourceEvent

-- The derived `PartialEq`.
abbrev pub event_eq : ResourceEvent → ResourceEvent → Bool
event_eq resources_applied resources_applied = true
event_eq all_replicas_ready all_replicas_ready = true
event_eq replicas_degraded replicas_degraded = true
event_eq spec_changed spec_changed = true
event_eq reconcile_error reconcile_error = true
event_eq deletion_requested deletion_requested = true
event_eq recovery_initiated recovery_initiated = true
event_eq fully_recovered fully_recovered = true
event_eq _ _ = false

-- `Display` of an event.
unfoldable event_name : ResourceEvent → String
event_name resources_applied = "ResourcesApplied"
event_name all_replicas_ready = "AllReplicasReady"
event_name replicas_degraded = "ReplicasDegraded"
event_name spec_changed = "SpecChanged"
event_name reconcile_error = "ReconcileError"
event_name deletion_requested = "DeletionRequested"
event_name recovery_initiated = "RecoveryInitiated"
event_name fully_recovered = "FullyRecovered"
