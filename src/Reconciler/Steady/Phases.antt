-- ===== src/Reconciler/Steady/Phases.antt =====
-- The phase that src/controller/reconciler.rs decides on, on a steady platform.
use k8s_operator_template.Prelude.{
  ℤ, pos, ◌≡◌, refl, ◌≤?◌, ◌<?◌, ◌=?◌, inl, inr, Bool-cases, if◌then◌else◌,
}
use k8s_operator_template.Prelude.Result.{Result, ok, err, IsOk}
use k8s_operator_template.Crd.{
  MyResource, Phase, pending, creating, running, updating, degraded, failed, deleting,
}
use k8s_operator_template.Errors.{Error}
use k8s_operator_template.Resources.Types.{Deployment}
use k8s_operator_template.Validation.Bounds.{InBounds}
use k8s_operator_template.Platform.Requests.{Platform}
use k8s_operator_template.Platform.Exec.{State, Exec, pure, ◌>>=◌}
use k8s_operator_template.Platform.Events.{Context}
use k8s_operator_template.Platform.Reaches.{Quiet, Quiet-pure, Quiet-bind}
use k8s_operator_template.Platform.Contracts.{Any}
use k8s_operator_template.Reconciler.Actions.{
  ready_of, validate_spec, create_owned_resources, check_ready_replicas,
}
use k8s_operator_template.Reconciler.Loop.{
  namespace_of, spec_changed, from_validated, from_pending, from_creating, created, still_running,
  updated, recovered, stay_running, from_running, from_updating, from_degraded, next_phase,
}
use k8s_operator_template.Reconciler.Footprint.Actions.{accepts_iff}
use k8s_operator_template.Reconciler.Steady.Actions.{
  IsSteady, check-Quiet, normal-Quiet, warning-Quiet, create-Quiet,
}

-- The specification: the phase after a visit to a resource whose spec is within the bounds, by the
-- phase before it and the number of ready replicas.
unfoldable pub decide : MyResource → ℤ → Phase → Phase
decide obj n pending = creating
decide obj n creating = if obj.spec.replicas ≤? n then running else creating
decide obj n running =
    if spec_changed obj then updating else if n <? obj.spec.replicas then degraded else running
decide obj n updating = if obj.spec.replicas ≤? n then running else updating
decide obj n degraded =
    if obj.spec.replicas ≤? n then running else if n =? pos 0 then failed else degraded
decide obj n failed = failed
decide obj n deleting = deleting

module _ {P : Platform} (ctx : Context) (obj current : MyResource) (d : Deployment)
    (steady : IsSteady P obj current d) where
  -- The action ends in the phase `q` and leaves the metrics alone.
  abbrev pub Decides : Phase → Exec P Phase → Type 0
  Decides q m = (s : State P) → Quiet m s (λ p. p ≡ q)

  told :
      (q : Phase) (m : Exec P (Unit {0}))
      → ((s : State P) → Quiet m s Any)
      → Decides q (m >>= λ _. pure q)
  told q m runs s = Quiet-bind m (λ _. pure q) s Any _ (runs s) λ _ t _. Quiet-pure q t _ refl

  kept : (q : Phase) → Decides q (pure q)
  kept q s = Quiet-pure q s _ refl

  -- A phase that is decided by the ready count.
  after_check :
      (q : Phase) (f : ℤ → Exec P Phase)
      → Decides q (f (ready_of d))
      → Decides q (check_ready_replicas obj (namespace_of obj) >>= f)
  after_check q f runs s =
      Quiet-bind (check_ready_replicas obj (namespace_of obj)) f s _ _
        (check-Quiet ctx obj current d steady s) λ n t e. rw e (runs t)

  after_apply :
      (q : Phase) (m : Exec P Phase)
      → Decides q m
      → Decides q (create_owned_resources obj (namespace_of obj) >>= λ _. m)
  after_apply q m runs s =
      Quiet-bind (create_owned_resources obj (namespace_of obj)) (λ _. m) s Any _
        (create-Quiet ctx obj current d steady s) λ _ t _. runs t

  validated-Decides :
      (r : Result (Unit {0}) Error) → r ≡ ok tt → Decides creating (from_validated ctx obj r)
  validated-Decides r e = rw e (told creating _ (normal-Quiet ctx obj current d steady _ _ _))

  created-Decides : (n : ℤ) → Decides (decide obj n creating) (created ctx obj n)
  unfolding decide
  created-Decides n = elim (Bool-cases (obj.spec.replicas ≤? n)) [
    | inl enough ↦ rw enough (told running _ (normal-Quiet ctx obj current d steady _ _ _))
    | inr short ↦ rw short (kept creating)
  ]

  updated-Decides : (n : ℤ) → Decides (decide obj n updating) (updated ctx obj n)
  unfolding decide
  updated-Decides n = elim (Bool-cases (obj.spec.replicas ≤? n)) [
    | inl enough ↦ rw enough (told running _ (normal-Quiet ctx obj current d steady _ _ _))
    | inr short ↦ rw short (kept updating)
  ]

  recovered-Decides : (n : ℤ) → Decides (decide obj n degraded) (recovered ctx obj n)
  unfolding decide
  recovered-Decides n = elim (Bool-cases (obj.spec.replicas ≤? n)) [
    | inl enough ↦ rw enough (told running _ (normal-Quiet ctx obj current d steady _ _ _))
    | inr short ↦ elim (Bool-cases (n =? pos 0)) [
      | inl gone ↦ rw (short, gone) (told failed _ (warning-Quiet ctx obj current d steady _ _ _))
      | inr left ↦ rw (short, left) (kept degraded)
    ]
  ]

  running-Decides : Decides (decide obj (ready_of d) running) (from_running ctx obj)
  unfolding decide from_running stay_running
  running-Decides = elim (Bool-cases (spec_changed obj)) [
    | inl new ↦ rw new (told updating _ (normal-Quiet ctx obj current d steady _ _ _))
    | inr old ↦ rw old (after_apply _ _ (after_check _ _ (stays (ready_of d))))
  ]
    where
      stays :
          (n : ℤ)
          → Decides (if n <? obj.spec.replicas then degraded else running) (still_running ctx obj n)
      stays n = elim (Bool-cases (n <? obj.spec.replicas)) [
        | inl short ↦ rw short (told degraded _ (warning-Quiet ctx obj current d steady _ _ _))
        | inr enough ↦ rw enough (kept running)
      ]

  -- On a steady platform, and within the bounds when the resource is pending, the `match` on the
  -- phase decides as `decide` does.
  pub next_phase-Decides :
      (p : Phase)
      → (p ≡ pending → InBounds obj.spec.replicas)
      → Decides (decide obj (ready_of d) p) (next_phase ctx obj p)
  unfolding next_phase from_pending from_creating from_updating from_degraded decide
  next_phase-Decides pending fits =
      validated-Decides (validate_spec obj)
        (accepted (validate_spec obj) ((accepts_iff obj).1 (fits refl)))
    where
      accepted : (r : Result (Unit {0}) Error) → IsOk r → r ≡ ok tt
      accepted (ok u) h = refl
      accepted (err e) h = absurd h
  next_phase-Decides creating fits =
      after_apply _ _ (after_check _ _ (created-Decides (ready_of d)))
  next_phase-Decides running fits = running-Decides
  next_phase-Decides updating fits =
      after_apply _ _ (after_check _ _ (updated-Decides (ready_of d)))
  next_phase-Decides degraded fits = after_check _ _ (recovered-Decides (ready_of d))
  next_phase-Decides failed fits = kept failed
  next_phase-Decides deleting fits = kept deleting
