-- ===== src/StateMachine/Driver.antt =====
-- `determine_event` of src/controller/state_machine.rs.
use k8s_operator_template.Prelude.{Bool, true, false, ◌&&◌, if◌then◌else◌}
use k8s_operator_template.Crd.{
  Phase, pending, creating, running, updating, degraded, failed, phase_eq,
}
use k8s_operator_template.StateMachine.Event.{
  ResourceEvent, resources_applied, all_replicas_ready, replicas_degraded, spec_changed,
  reconcile_error, deletion_requested, recovery_initiated, fully_recovered,
}
use k8s_operator_template.StateMachine.Context
use k8s_operator_template.StateMachine.Context.{TransitionContext}

-- `matches!(phase, Phase::Running | Phase::Degraded)`
abbrev takes_spec_changes : Phase → Bool
takes_spec_changes running = true
takes_spec_changes degraded = true
takes_spec_changes _ = false

-- `matches!(phase, Phase::Creating | Phase::Updating)`
abbrev is_rolling_out : Phase → Bool
is_rolling_out creating = true
is_rolling_out updating = true
is_rolling_out _ = false

abbrev ready_event : Phase → ResourceEvent
ready_event failed = recovery_initiated
ready_event degraded = fully_recovered
ready_event _ = all_replicas_ready

unfoldable pub determine_event : Phase → TransitionContext → Bool → ResourceEvent
determine_event current_phase ctx has_deletion_timestamp =
    if has_deletion_timestamp
    then deletion_requested
    else if ctx.spec_changed && takes_spec_changes current_phase
    then spec_changed
    else if Context.all_replicas_ready ctx
    then ready_event current_phase
    else if Context.is_degraded ctx
    then replicas_degraded
    else if phase_eq current_phase pending
    then resources_applied
    else if Context.no_replicas_ready ctx && is_rolling_out current_phase
    then resources_applied
    else reconcile_error
