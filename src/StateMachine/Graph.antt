-- ===== src/StateMachine/Graph.antt =====
-- The life cycle of src/controller/state_machine.rs as a graph, stated by rules and without the
-- table, and what the table's machine does along it.
use k8s_operator_template.Prelude.{pos, ◌≤ℤ◌, ◌<ℤ◌, true, ◌≡◌, refl, ◌↔◌, arith}
use k8s_operator_template.Crd.{
  Phase, pending, creating, running, updating, degraded, failed, deleting,
}
use k8s_operator_template.StateMachine.Event.{
  ResourceEvent, resources_applied, all_replicas_ready, replicas_degraded, spec_changed,
  reconcile_error, deletion_requested, recovery_initiated, fully_recovered,
}
use k8s_operator_template.StateMachine.Context
use k8s_operator_template.StateMachine.Context.{TransitionContext}
use k8s_operator_template.StateMachine.Table.{
  TransitionResult, success, invalid_transition, guard_failed, new, transition, can_transition,
}

-- A phase in which the resource has work in hand.
pub data IsActive : Phase → Type 0 where
  pending_active : IsActive pending
  creating_active : IsActive creating
  running_active : IsActive running
  updating_active : IsActive updating
  degraded_active : IsActive degraded

-- A phase that waits for its replicas.
pub data Awaits : Phase → Type 0 where
  creating_awaits : Awaits creating
  updating_awaits : Awaits updating
  degraded_awaits : Awaits degraded

-- The edges of the life cycle, by the event that takes them.
pub data Edge : Phase → ResourceEvent → Phase → Type 0 where
  start : Edge pending resources_applied creating
  arrive : {p : Phase} → Awaits p → Edge p all_replicas_ready running
  recover : Edge degraded fully_recovered running
  change_running : Edge running spec_changed updating
  change_degraded : Edge degraded spec_changed updating
  degrade_creating : Edge creating replicas_degraded degraded
  degrade_running : Edge running replicas_degraded degraded
  degrade_updating : Edge updating replicas_degraded degraded
  fail : {p : Phase} → IsActive p → Edge p reconcile_error failed
  retry : Edge failed recovery_initiated pending
  delete_active : {p : Phase} → IsActive p → Edge p deletion_requested deleting
  delete_failed : Edge failed deletion_requested deleting

-- What an event claims about the replicas, as orders between the two counts.
abbrev pub AllReady : TransitionContext → Type 0
AllReady ctx = (pos 0 <ℤ ctx.desired_replicas) × (ctx.desired_replicas ≤ℤ ctx.ready_replicas)

abbrev pub PartlyReady : TransitionContext → Type 0
PartlyReady ctx = (pos 0 <ℤ ctx.ready_replicas) × (ctx.ready_replicas <ℤ ctx.desired_replicas)

abbrev pub Claim : ResourceEvent → TransitionContext → Type 0
Claim all_replicas_ready ctx = AllReady ctx
Claim fully_recovered ctx = AllReady ctx
Claim replicas_degraded ctx = PartlyReady ctx
Claim _ ctx = Unit

pub all_replicas_ready_iff :
    (ctx : TransitionContext) → (Context.all_replicas_ready ctx ≡ true) ↔ AllReady ctx
unfolding Context.all_replicas_ready
all_replicas_ready_iff ctx = ground arith

pub is_degraded_iff : (ctx : TransitionContext) → (Context.is_degraded ctx ≡ true) ↔ PartlyReady ctx
unfolding Context.is_degraded
is_degraded_iff ctx = ground arith

pub ruleset edges = (
  start, arrive, recover, change_running, change_degraded, degrade_creating, degrade_running,
  degrade_updating, fail, retry, delete_active, delete_failed, pending_active, creating_active,
  running_active, updating_active, degraded_active, creating_awaits, updating_awaits,
  degraded_awaits,
)

-- The machine went from `p` to `q` by `e`, and reports just that.
abbrev pub Arrives : TransitionResult → Phase → ResourceEvent → Phase → Type 0
Arrives (success from to event description) p e q = (from ≡ p) × (to ≡ q) × (event ≡ e)
Arrives (invalid_transition current event) p e q = ⊥
Arrives (guard_failed from to event reason) p e q = ⊥

Edge-Arrives :
    (p q : Phase) (e : ResourceEvent) (ctx : TransitionContext)
    → Arrives (transition new p e ctx) p e q
    → Edge p e q
unfolding transition new
Edge-Arrives pending q resources_applied ctx h = grind (arith, edges)
Edge-Arrives p q e ctx h = grind (arith, edges)

Claim-Arrives :
    (p q : Phase) (e : ResourceEvent) (ctx : TransitionContext)
    → Arrives (transition new p e ctx) p e q
    → Claim e ctx
unfolding transition new
Claim-Arrives pending q resources_applied ctx h = tt
Claim-Arrives p q e ctx h = ground (arith, all_replicas_ready_iff ctx, is_degraded_iff ctx)

Arrives-Edge :
    {p q : Phase} {e : ResourceEvent} (ctx : TransitionContext)
    → Edge p e q
    → Claim e ctx
    → Arrives (transition new p e ctx) p e q
unfolding transition new
Arrives-Edge ctx (arrive creating_awaits) h =
    rw ((all_replicas_ready_iff ctx).1 h) (refl, refl, refl)
Arrives-Edge ctx (arrive updating_awaits) h =
    rw ((all_replicas_ready_iff ctx).1 h) (refl, refl, refl)
Arrives-Edge ctx (arrive degraded_awaits) h =
    rw ((all_replicas_ready_iff ctx).1 h) (refl, refl, refl)
Arrives-Edge ctx (fail pending_active) h = (refl, refl, refl)
Arrives-Edge ctx (fail _) h = (refl, refl, refl)
Arrives-Edge ctx (delete_active pending_active) h = (refl, refl, refl)
Arrives-Edge ctx (delete_active _) h = (refl, refl, refl)
Arrives-Edge ctx _ h = ground (arith, all_replicas_ready_iff ctx, is_degraded_iff ctx)

-- The machine reports a move from p to q by e exactly when the graph has that edge and the context
-- bears out what the event claims of the replicas.
pub transition-Arrives_iff :
    (p q : Phase) (e : ResourceEvent) (ctx : TransitionContext)
    → Arrives (transition new p e ctx) p e q ↔ (Edge p e q × Claim e ctx)
transition-Arrives_iff p q e ctx =
    (λ h. (Edge-Arrives p q e ctx h, Claim-Arrives p q e ctx h), λ h. Arrives-Edge ctx h.0 h.1)

-- The phase that an event leads to, if it leads anywhere.
abbrev pub HasEdge : Phase → ResourceEvent → Type 0
HasEdge p e = (q : Phase) × Edge p e q

HasEdge-can : (p : Phase) (e : ResourceEvent) → can_transition new p e ≡ true → HasEdge p e
unfolding can_transition new
HasEdge-can pending resources_applied h = (creating, start)
HasEdge-can pending reconcile_error h = (failed, search edges)
HasEdge-can pending deletion_requested h = (deleting, search edges)
HasEdge-can failed recovery_initiated h = (pending, search edges)
HasEdge-can failed deletion_requested h = (deleting, search edges)
HasEdge-can creating all_replicas_ready h = (running, search edges)
HasEdge-can updating all_replicas_ready h = (running, search edges)
HasEdge-can degraded all_replicas_ready h = (running, search edges)
HasEdge-can degraded fully_recovered h = (running, search edges)
HasEdge-can running spec_changed h = (updating, search edges)
HasEdge-can degraded spec_changed h = (updating, search edges)
HasEdge-can creating replicas_degraded h = (degraded, search edges)
HasEdge-can running replicas_degraded h = (degraded, search edges)
HasEdge-can updating replicas_degraded h = (degraded, search edges)
HasEdge-can creating reconcile_error h = (failed, search edges)
HasEdge-can running reconcile_error h = (failed, search edges)
HasEdge-can updating reconcile_error h = (failed, search edges)
HasEdge-can degraded reconcile_error h = (failed, search edges)
HasEdge-can creating deletion_requested h = (deleting, search edges)
HasEdge-can running deletion_requested h = (deleting, search edges)
HasEdge-can updating deletion_requested h = (deleting, search edges)
HasEdge-can degraded deletion_requested h = (deleting, search edges)
HasEdge-can _ _ h = cc

can-Edge : {p q : Phase} {e : ResourceEvent} → Edge p e q → can_transition new p e ≡ true
unfolding can_transition new
can-Edge (arrive creating_awaits) = refl
can-Edge (arrive _) = refl
can-Edge (fail pending_active) = refl
can-Edge (fail _) = refl
can-Edge (delete_active pending_active) = refl
can-Edge (delete_active _) = refl
can-Edge _ = refl

-- `can_transition` answers true exactly when the graph has an edge for the event.
pub can_transition_iff :
    (p : Phase) (e : ResourceEvent) → (can_transition new p e ≡ true) ↔ HasEdge p e
can_transition_iff p e = (HasEdge-can p e, λ h. can-Edge h.1)
