-- ===== src/Reconciler/Machine.antt =====
-- The reconciler of src/controller/reconciler.rs against the state machine of
-- src/controller/state_machine.rs, which it has in its context and does not use.
use k8s_operator_template.Prelude.{
  ℤ, pos, ◌≤ℤ◌, true, ◌≡◌, refl, ◌≢◌, ◌⊎◌, inl, inr, arith, ◌≤?◌, ◌<?◌, ◌=?◌, Bool-cases,
}
use k8s_operator_template.Crd.{
  MyResource, Phase, pending, creating, running, updating, degraded, failed, deleting,
}
use k8s_operator_template.StateMachine.Event.{
  ResourceEvent, resources_applied, all_replicas_ready, replicas_degraded, spec_changed,
  reconcile_error,
}
use k8s_operator_template.StateMachine.Context
use k8s_operator_template.StateMachine.Context.{TransitionContext}
use k8s_operator_template.StateMachine.Table.{transition, new}
use k8s_operator_template.StateMachine.Graph.{
  Edge, Claim, AllReady, Arrives, transition-Arrives_iff, start, arrive, change_running,
  degrade_running, fail, creating_awaits, updating_awaits, degraded_awaits, pending_active,
  degraded_active,
}
use k8s_operator_template.Validation.Bounds.{InBounds}
use k8s_operator_template.Reconciler.Loop
use k8s_operator_template.Reconciler.Moves.{Moves}
use k8s_operator_template.Reconciler.Steady.Phases.{decide}

-- Every phase change that the reconciler may record is an edge of the life cycle, or no change.
pub Moves-Edge :
    (obj : MyResource) (p q : Phase) → Moves obj p q → (p ≡ q) ⊎ ((e : ResourceEvent) × Edge p e q)
Moves-Edge obj p q (Moves.accepted fits) = inr (resources_applied, start)
Moves-Edge obj p q (Moves.refused bad) = inr (reconcile_error, fail pending_active)
Moves-Edge obj p q Moves.created = inr (all_replicas_ready, arrive creating_awaits)
Moves-Edge obj p q (Moves.change e) = inr (spec_changed, change_running)
Moves-Edge obj p q (Moves.lost e) = inr (replicas_degraded, degrade_running)
Moves-Edge obj p q Moves.updated = inr (all_replicas_ready, arrive updating_awaits)
Moves-Edge obj p q Moves.recovered = inr (all_replicas_ready, arrive degraded_awaits)
Moves-Edge obj p q Moves.given_up = inr (reconcile_error, fail degraded_active)
Moves-Edge obj p q (Moves.still_running e) = inl refl
Moves-Edge obj p q Moves.still_creating = inl refl
Moves-Edge obj p q Moves.still_updating = inl refl
Moves-Edge obj p q Moves.still_degraded = inl refl
Moves-Edge obj p q Moves.still_failed = inl refl
Moves-Edge obj p q Moves.still_deleting = inl refl

-- The context of the machine for a resource with `n` ready replicas.
abbrev pub counted : MyResource → ℤ → TransitionContext
counted obj n = Context.new n obj.spec.replicas

-- The machine has an event that leads from `p` to `q`, with its guard satisfied.
abbrev pub Confirms : MyResource → ℤ → Phase → Phase → Type 0
Confirms obj n p q = (e : ResourceEvent) × Arrives (transition new p e (counted obj n)) p e q

-- The one kind of change that the machine rejects: Running with no ready replica to Degraded.
pub record IsRejected (obj : MyResource) (n : ℤ) (p q : Phase) : Type 0 where
  pub from_running : p ≡ running
  pub to_degraded : q ≡ degraded
  pub none_ready : n ≤ℤ pos 0

confirm :
    {p q : Phase} {e : ResourceEvent} (obj : MyResource) (n : ℤ)
    → Edge p e q
    → Claim e (counted obj n)
    → Confirms obj n p q
confirm {p} {q} {e} obj n edge claim =
    (e, (transition-Arrives_iff p q e (counted obj n)).1 (edge, claim))

enough_ready :
    (obj : MyResource) (n : ℤ)
    → InBounds obj.spec.replicas
    → (obj.spec.replicas ≤? n) ≡ true
    → AllReady (counted obj n)
unfolding Context.new
enough_ready obj n fits h = ground (arith, fits)

lost_replicas :
    (obj : MyResource) (n : ℤ)
    → (n <? obj.spec.replicas) ≡ true
    → Confirms obj n running degraded ⊎ IsRejected obj n running degraded
unfolding Context.new
lost_replicas obj n short = elim (Bool-cases (pos 0 <? n)) [
  | inl some_left ↦ inl (confirm obj n degrade_running (ground arith))
  | inr none_left ↦
      inr (record { from_running = refl; to_degraded = refl; none_ready = ground arith })
]

-- For a spec within the bounds, every change of phase that `decide` makes is one that the state
-- machine confirms, its guard included, except for Running to Degraded with no replica ready.
pub decide-Confirms :
    (obj : MyResource) (n : ℤ) (p : Phase)
    → InBounds obj.spec.replicas
    → decide obj n p ≢ p
    → Confirms obj n p (decide obj n p) ⊎ IsRejected obj n p (decide obj n p)
unfolding decide
decide-Confirms obj n pending fits moved = inl (confirm obj n start tt)
decide-Confirms obj n creating fits moved = elim (Bool-cases (obj.spec.replicas ≤? n)) [
  | inl enough ↦
      rw enough (inl (confirm obj n (arrive creating_awaits) (enough_ready obj n fits enough)))
  | inr short ↦ absurd (moved (rw short))
]
decide-Confirms obj n running fits moved = elim (Bool-cases (Loop.spec_changed obj)) [
  | inl fresh ↦ rw fresh (inl (confirm obj n change_running tt))
  | inr same ↦ elim (Bool-cases (n <? obj.spec.replicas)) [
    | inl short ↦ rw (same, short) (lost_replicas obj n short)
    | inr enough ↦ absurd (moved (rw (same, enough)))
  ]
]
decide-Confirms obj n updating fits moved = elim (Bool-cases (obj.spec.replicas ≤? n)) [
  | inl enough ↦
      rw enough (inl (confirm obj n (arrive updating_awaits) (enough_ready obj n fits enough)))
  | inr short ↦ absurd (moved (rw short))
]
decide-Confirms obj n degraded fits moved = elim (Bool-cases (obj.spec.replicas ≤? n)) [
  | inl enough ↦
      rw enough (inl (confirm obj n (arrive degraded_awaits) (enough_ready obj n fits enough)))
  | inr short ↦ elim (Bool-cases (n =? pos 0)) [
    | inl gone ↦ rw (short, gone) (inl (confirm obj n (fail degraded_active) tt))
    | inr left ↦ absurd (moved (rw (short, left)))
  ]
]
decide-Confirms obj n failed fits moved = absurd (moved refl)
decide-Confirms obj n deleting fits moved = absurd (moved refl)
