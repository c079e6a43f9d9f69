-- ===== src/Reconciler/Footprint/Branches.antt =====
-- The branches of the `match` on the phase in src/controller/reconciler.rs, with the phase changes
-- and the requests that they make.
use k8s_operator_template.Prelude.{ℤ, pos, false, ◌≡◌, refl, inl, inr, ◌≤?◌, ◌<?◌, ◌=?◌, Bool-cases}
use k8s_operator_template.Prelude.Result.{Result, ok, err}
use k8s_operator_template.Crd.{
  MyResource, Phase, pending, creating, running, updating, degraded, failed, deleting,
}
use k8s_operator_template.Errors.{Error}
use k8s_operator_template.Validation.Bounds.{InBounds}
use k8s_operator_template.Platform.Requests.{Platform}
use k8s_operator_template.Platform.Exec.{State, Exec, pure, ◌>>=◌}
use k8s_operator_template.Platform.Events.{Context}
use k8s_operator_template.Platform.Contracts.{Keeps, Does, Any, Does-pure, Does-raise, Does-bind}
use k8s_operator_template.Reconciler.Actions.{validate_spec}
use k8s_operator_template.Reconciler.Loop.{
  phase_of, spec_changed, refuse, from_validated, from_pending, from_creating, created,
  still_running, updated, recovered, stay_running, from_running, from_updating, from_degraded,
  next_phase,
}
use k8s_operator_template.Reconciler.Moves.{
  Moves, IsLive, while_creating, while_updating, while_running, Allowed,
}
use k8s_operator_template.Reconciler.Footprint.Actions.{
  accepts_iff, check-Does, normal-Does, warning-Does, create-Does, update-Does,
}

module _ {P : Platform} (ctx : Context) (obj : MyResource) {I : State P → Type 0}
    (keeps : Keeps (Allowed obj) I) (alive : IsLive obj) where
  -- The result of a branch of the `match` on the phase.
  abbrev Goes : Phase → Exec P Phase → Type 0
  Goes p m = phase_of obj.status ≡ p → Does I (Moves obj p) m

  -- Publishing an event and going on to a phase.
  then-Does :
      (p q : Phase) (m : Exec P (Unit {0}))
      → Does I Any m
      → Moves obj p q
      → Does I (Moves obj p) (m >>= λ _. pure q)
  then-Does p q m dm moves = Does-bind Any _ m _ dm (λ _ _. Does-pure _ q moves)

  refuse-Does :
      (e : Error)
      → phase_of obj.status ≡ pending
      → ¬ InBounds obj.spec.replicas
      → Does I (Moves obj pending) (refuse ctx obj e)
  refuse-Does e at bad = Does-bind Any _ _ _ (warning-Does ctx obj keeps alive _ _ _) λ _ _.
      Does-bind Any _ _ _
        (update-Does ctx obj keeps alive failed (pos 0) _ (rw at (Moves.refused bad)))
        λ _ _. Does-raise _ e

  validated-Does :
      (r : Result (Unit {0}) Error)
      → phase_of obj.status ≡ pending
      → validate_spec obj ≡ r
      → Does I (Moves obj pending) (from_validated ctx obj r)
  validated-Does (ok u) at valid =
      then-Does pending creating _ (normal-Does ctx obj keeps alive _ _ _)
        (Moves.accepted ((accepts_iff obj).0 (rw valid tt)))
  validated-Does (err e) at valid =
      refuse-Does e at (λ fits. rw valid at ((accepts_iff obj).1 fits))

  pending-Does : Goes pending (from_pending ctx obj)
  unfolding from_pending
  pending-Does at = validated-Does (validate_spec obj) at refl

  pub created-Does : (n : ℤ) → Does I (Moves obj creating) (created ctx obj n)
  created-Does n = elim (Bool-cases (obj.spec.replicas ≤? n)) [
    | inl enough ↦
        rw enough
          (then-Does creating running _ (normal-Does ctx obj keeps alive _ _ _) Moves.created)
    | inr short ↦ rw short (Does-pure _ _ Moves.still_creating)
  ]

  creating-Does : Goes creating (from_creating ctx obj)
  unfolding from_creating
  creating-Does at =
      Does-bind Any _ _ _ (create-Does ctx obj keeps alive (while_creating at))
        λ _ _. Does-bind Any _ _ _ (check-Does ctx obj keeps alive) λ n _. created-Does n

  pub still_running-Does :
      spec_changed obj ≡ false → (n : ℤ) → Does I (Moves obj running) (still_running ctx obj n)
  still_running-Does old n = elim (Bool-cases (n <? obj.spec.replicas)) [
    | inl short ↦
        rw short
          (then-Does running degraded _ (warning-Does ctx obj keeps alive _ _ _) (Moves.lost old))
    | inr enough ↦ rw enough (Does-pure _ _ (Moves.still_running old))
  ]

  running-Does : Goes running (from_running ctx obj)
  unfolding from_running stay_running
  running-Does at = elim (Bool-cases (spec_changed obj)) [
    | inl new ↦
        rw new
          (then-Does running updating _ (normal-Does ctx obj keeps alive _ _ _) (Moves.change new))
    | inr old ↦ rw old (
        Does-bind Any _ _ _ (create-Does ctx obj keeps alive (while_running at old)) λ _ _.
          Does-bind Any _ _ _ (check-Does ctx obj keeps alive) λ n _. still_running-Does old n)
  ]

  pub updated-Does : (n : ℤ) → Does I (Moves obj updating) (updated ctx obj n)
  updated-Does n = elim (Bool-cases (obj.spec.replicas ≤? n)) [
    | inl enough ↦
        rw enough
          (then-Does updating running _ (normal-Does ctx obj keeps alive _ _ _) Moves.updated)
    | inr short ↦ rw short (Does-pure _ _ Moves.still_updating)
  ]

  updating-Does : Goes updating (from_updating ctx obj)
  unfolding from_updating
  updating-Does at =
      Does-bind Any _ _ _ (create-Does ctx obj keeps alive (while_updating at))
        λ _ _. Does-bind Any _ _ _ (check-Does ctx obj keeps alive) λ n _. updated-Does n

  recovered-Does : (n : ℤ) → Does I (Moves obj degraded) (recovered ctx obj n)
  recovered-Does n = elim (Bool-cases (obj.spec.replicas ≤? n)) [
    | inl enough ↦
        rw enough
          (then-Does degraded running _ (normal-Does ctx obj keeps alive _ _ _) Moves.recovered)
    | inr short ↦ elim (Bool-cases (n =? pos 0)) [
      | inl gone ↦
          rw (short, gone)
            (then-Does degraded failed _ (warning-Does ctx obj keeps alive _ _ _) Moves.given_up)
      | inr some_left ↦ rw (short, some_left) (Does-pure _ _ Moves.still_degraded)
    ]
  ]

  degraded-Does : Goes degraded (from_degraded ctx obj)
  unfolding from_degraded
  degraded-Does at = Does-bind Any _ _ _ (check-Does ctx obj keeps alive) λ n _. recovered-Does n

  pub next_phase-Does : (p : Phase) → Goes p (next_phase ctx obj p)
  unfolding next_phase
  next_phase-Does pending at = pending-Does at
  next_phase-Does creating at = creating-Does at
  next_phase-Does running at = running-Does at
  next_phase-Does updating at = updating-Does at
  next_phase-Does degraded at = degraded-Does at
  next_phase-Does failed at = Does-pure _ failed Moves.still_failed
  next_phase-Does deleting at = Does-pure _ deleting Moves.still_deleting
