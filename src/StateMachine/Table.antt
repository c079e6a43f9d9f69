-- ===== src/StateMachine/Table.antt =====
-- The transition table of src/controller/state_machine.rs, its guards and its look-ups.
use k8s_operator_template.Prelude.{
  String, Bool, not, ◌&&◌, Option, none, some, List, [], ◌∷◌, format, to_string, is_some,
  if◌then◌else◌,
}
use k8s_operator_template.Crd.{
  Phase, pending, creating, running, updating, degraded, failed, deleting, phase_eq,
}
use k8s_operator_template.StateMachine.Event.{
  ResourceEvent, resources_applied, all_replicas_ready, replicas_degraded, spec_changed,
  reconcile_error, deletion_requested, recovery_initiated, fully_recovered, event_eq,
}
use k8s_operator_template.StateMachine.Context
use k8s_operator_template.StateMachine.Context.{TransitionContext}

pub record Transition : Type 0 where
  pub from : Phase
  pub to : Phase
  pub event : ResourceEvent
  pub description : String

abbrev new_transition : Phase → Phase → ResourceEvent → String → Transition
new_transition from to event description = record {
  from = from;
  to = to;
  event = event;
  description = description;
}

pub data TransitionResult : Type 0 where
  success : Phase → Phase → ResourceEvent → String → TransitionResult
  invalid_transition : Phase → ResourceEvent → TransitionResult
  guard_failed : Phase → Phase → ResourceEvent → String → TransitionResult

pub record ResourceStateMachine : Type 0 where
  pub transitions : List Transition

unfoldable pub new : ResourceStateMachine
new = record {
  transitions =
      new_transition pending creating resources_applied "Starting resource creation"
      ∷ new_transition pending failed reconcile_error "Validation failed during pending"
      ∷ new_transition pending deleting deletion_requested
          "Resource deletion requested before creation"
      ∷ new_transition creating running all_replicas_ready
          "All replicas are ready, resource is now running"
      ∷ new_transition creating degraded replicas_degraded
          "Some replicas ready but resource is degraded"
      ∷ new_transition creating failed reconcile_error "Error during resource creation"
      ∷ new_transition creating deleting deletion_requested
          "Resource deletion requested during creation"
      ∷ new_transition running updating spec_changed "Resource spec changed, starting update"
      ∷ new_transition running degraded replicas_degraded "Resource health degraded"
      ∷ new_transition running failed reconcile_error "Error while running"
      ∷ new_transition running deleting deletion_requested "Resource deletion requested"
      ∷ new_transition updating running all_replicas_ready "Update completed, resource is running"
      ∷ new_transition updating degraded replicas_degraded
          "Update in progress but resource degraded"
      ∷ new_transition updating failed reconcile_error "Error during update"
      ∷ new_transition updating deleting deletion_requested
          "Resource deletion requested during update"
      ∷ new_transition degraded running fully_recovered
          "Resource fully recovered from degraded state"
      ∷ new_transition degraded running all_replicas_ready "All replicas recovered"
      ∷ new_transition degraded updating spec_changed "Spec changed while degraded"
      ∷ new_transition degraded failed reconcile_error "Degraded resource encountered error"
      ∷ new_transition degraded deleting deletion_requested
          "Resource deletion requested while degraded"
      ∷ new_transition failed pending recovery_initiated "Recovery initiated from failed state"
      ∷ new_transition failed deleting deletion_requested "Resource deletion requested while failed"
      ∷ [];
}

-- `"{}/{}"` of the two counts.
unfoldable pub counts : TransitionContext → String
counts ctx = format (to_string ctx.ready_replicas ∷ "/" ∷ to_string ctx.desired_replicas ∷ [])

-- The `match` of `check_guard`: `some reason` when the guard of the transition fails.
guard_reason : Phase → Phase → ResourceEvent → TransitionContext → Option String
guard_reason _ running all_replicas_ready ctx =
    if not (Context.all_replicas_ready ctx)
    then some (format ("Not all replicas ready: " ∷ counts ctx ∷ []))
    else none
guard_reason _ degraded replicas_degraded ctx =
    if not (Context.is_degraded ctx)
    then some (format ("Resource is not degraded: " ∷ counts ctx ∷ " replicas ready" ∷ []))
    else none
guard_reason degraded running fully_recovered ctx =
    if not (Context.all_replicas_ready ctx)
    then some (format ("Cannot mark as recovered, not all replicas ready: " ∷ counts ctx ∷ []))
    else none
guard_reason _ _ _ ctx = none

unfoldable check_guard : Transition → TransitionContext → Option String
unfolding guard_reason
check_guard t ctx = guard_reason t.from t.to t.event ctx

-- `self.transitions.iter().find(|t| t.from == *current && t.event == event)`
unfoldable pub find_transition : List Transition → Phase → ResourceEvent → Option Transition
find_transition [] current event = none
find_transition (t ∷ ts) current event =
    if phase_eq t.from current && event_eq t.event event
    then some t
    else find_transition ts current event

-- The outcome for a transition that was found, by the answer of its guard.
guarded : Transition → ResourceEvent → Option String → TransitionResult
guarded t event none = success t.from t.to event t.description
guarded t event (some reason) = guard_failed t.from t.to event reason

outcome : Option Transition → Phase → ResourceEvent → TransitionContext → TransitionResult
unfolding guarded
outcome none current event ctx = invalid_transition current event
outcome (some t) current event ctx = guarded t event (check_guard t ctx)

unfoldable pub transition :
    ResourceStateMachine → Phase → ResourceEvent → TransitionContext → TransitionResult
unfolding find_transition outcome check_guard
transition sm current event ctx =
    outcome (find_transition sm.transitions current event) current event ctx

unfoldable pub can_transition : ResourceStateMachine → Phase → ResourceEvent → Bool
unfolding find_transition
can_transition sm from event = is_some (find_transition sm.transitions from event)

unfoldable pub events_from : List Transition → Phase → List ResourceEvent
events_from [] state = []
events_from (t ∷ ts) state =
    let rest = events_from ts state in if phase_eq t.from state then t.event ∷ rest else rest

unfoldable pub valid_events : ResourceStateMachine → Phase → List ResourceEvent
unfolding events_from
valid_events sm state = events_from sm.transitions state
