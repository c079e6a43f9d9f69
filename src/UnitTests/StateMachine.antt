-- ===== src/UnitTests/StateMachine.antt =====
-- The tests of src/controller/state_machine.rs.
use k8s_operator_template.Prelude.{pos, Bool, true, false, ◌≡◌, refl, ◌&&◌, List, [], ◌∷◌}
use k8s_operator_template.Crd.{
  Phase, pending, creating, running, updating, degraded, failed, deleting, phase_eq,
}
use k8s_operator_template.StateMachine.Event.{
  ResourceEvent, resources_applied, all_replicas_ready, replicas_degraded, spec_changed,
  deletion_requested, event_eq,
}
use k8s_operator_template.StateMachine.Context
use k8s_operator_template.StateMachine.Context.{with_spec_changed}
use k8s_operator_template.StateMachine.Table.{
  TransitionResult, success, invalid_transition, guard_failed, new, transition, can_transition,
  valid_events,
}
use k8s_operator_template.StateMachine.Driver.{determine_event}

abbrev is_success : TransitionResult → Bool
is_success (success from to event description) = true
is_success _ = false

abbrev is_guard_failed : TransitionResult → Bool
is_guard_failed (guard_failed from to event reason) = true
is_guard_failed _ = false

abbrev is_invalid : TransitionResult → Bool
is_invalid (invalid_transition from event) = true
is_invalid _ = false

-- A success between these phases.
abbrev goes : Phase → Phase → TransitionResult → Bool
goes p q (success from to event description) = phase_eq from p && phase_eq to q
goes p q _ = false

abbrev is_empty : List ResourceEvent → Bool
is_empty [] = true
is_empty (e ∷ es) = false

abbrev test_pending_to_creating : Bool
test_pending_to_creating =
    goes pending creating (transition new pending resources_applied (Context.new (pos 0) (pos 3)))

abbrev test_creating_to_running_guard : Bool
test_creating_to_running_guard =
    is_guard_failed (transition new creating all_replicas_ready (Context.new (pos 0) (pos 3)))
    && is_success (transition new creating all_replicas_ready (Context.new (pos 3) (pos 3)))

abbrev test_running_to_degraded_guard : Bool
test_running_to_degraded_guard =
    is_success (transition new running replicas_degraded (Context.new (pos 2) (pos 3)))
    && is_guard_failed (transition new running replicas_degraded (Context.new (pos 3) (pos 3)))

abbrev test_invalid_transition : Bool
test_invalid_transition =
    is_invalid (transition new running resources_applied (Context.new (pos 3) (pos 3)))

abbrev test_deleting_is_terminal : Bool
test_deleting_is_terminal = is_empty (valid_events new deleting)

abbrev all_can_be_deleted : List Phase → Bool
all_can_be_deleted [] = true
all_can_be_deleted (state ∷ states) =
    can_transition new state deletion_requested && all_can_be_deleted states

abbrev test_deletion_from_any_state : Bool
test_deletion_from_any_state =
    all_can_be_deleted (pending ∷ creating ∷ running ∷ updating ∷ degraded ∷ failed ∷ [])

abbrev test_determine_event_deletion_priority : Bool
test_determine_event_deletion_priority =
    event_eq (determine_event running (Context.new (pos 3) (pos 3)) true) deletion_requested

abbrev test_determine_event_spec_changed : Bool
test_determine_event_spec_changed =
    event_eq (determine_event running (with_spec_changed true (Context.new (pos 3) (pos 3))) false)
      spec_changed

abbrev test_determine_event_all_replicas_ready : Bool
test_determine_event_all_replicas_ready =
    event_eq (determine_event creating (Context.new (pos 3) (pos 3)) false) all_replicas_ready

abbrev test_determine_event_degraded : Bool
test_determine_event_degraded =
    event_eq (determine_event running (Context.new (pos 2) (pos 3)) false) replicas_degraded

tests_pass :
    (test_pending_to_creating && test_creating_to_running_guard && test_running_to_degraded_guard
      && test_invalid_transition && test_deleting_is_terminal && test_deletion_from_any_state
      && test_determine_event_deletion_priority && test_determine_event_spec_changed
      && test_determine_event_all_replicas_ready && test_determine_event_degraded)
    ≡ true
unfolding transition new Context.new determine_event valid_events can_transition with_spec_changed
    Context.all_replicas_ready Context.is_degraded
tests_pass = refl
