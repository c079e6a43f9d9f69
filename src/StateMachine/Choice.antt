-- ===== src/StateMachine/Choice.antt =====
-- `determine_event` of src/controller/state_machine.rs against the machine: the events that it
-- chooses meet their guards, and where the machine has no edge for them.
use k8s_operator_template.Prelude.{Bool, true, ◌≡◌, ◌≢◌, arith, String}
use k8s_operator_template.Crd.{Phase, pending}
use k8s_operator_template.StateMachine.Event.{
  ResourceEvent, all_replicas_ready, replicas_degraded, fully_recovered,
}
use k8s_operator_template.StateMachine.Context
use k8s_operator_template.StateMachine.Context.{TransitionContext}
use k8s_operator_template.StateMachine.Table.{guard_failed, new, transition}
use k8s_operator_template.StateMachine.Driver.{determine_event}
use k8s_operator_template.StateMachine.Graph.{Claim, all_replicas_ready_iff, is_degraded_iff}

-- The claim of an event as a test.
abbrev claim : ResourceEvent → TransitionContext → Bool
claim all_replicas_ready ctx = Context.all_replicas_ready ctx
claim fully_recovered ctx = Context.all_replicas_ready ctx
claim replicas_degraded ctx = Context.is_degraded ctx
claim _ ctx = true

Claim-claim : (e : ResourceEvent) (ctx : TransitionContext) → claim e ctx ≡ true → Claim e ctx
Claim-claim all_replicas_ready ctx h = (all_replicas_ready_iff ctx).0 h
Claim-claim fully_recovered ctx h = (all_replicas_ready_iff ctx).0 h
Claim-claim replicas_degraded ctx h = (is_degraded_iff ctx).0 h
Claim-claim _ ctx h = tt

determine_event-claim :
    (p : Phase) (ctx : TransitionContext) (deleted : Bool)
    → claim (determine_event p ctx deleted) ctx ≡ true
unfolding determine_event
determine_event-claim pending ctx deleted = ground arith
determine_event-claim p ctx deleted = ground arith

-- An event that `determine_event` chooses claims nothing of the replicas that the context denies.
pub determine_event-Claim :
    (p : Phase) (ctx : TransitionContext) (deleted : Bool)
    → Claim (determine_event p ctx deleted) ctx
determine_event-Claim p ctx deleted =
    Claim-claim (determine_event p ctx deleted) ctx (determine_event-claim p ctx deleted)

-- The machine never answers a chosen event with a failed guard.
determine_event-unguarded :
    (p q r : Phase) (ctx : TransitionContext) (deleted : Bool) (e : ResourceEvent) (reason : String)
    → transition new p (determine_event p ctx deleted) ctx ≢ guard_failed q r e reason
unfolding determine_event transition new
determine_event-unguarded pending q r ctx deleted e reason = ground arith
determine_event-unguarded p q r ctx deleted e reason = ground arith
