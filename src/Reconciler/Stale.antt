-- ===== src/Reconciler/Stale.antt =====
-- A visit of src/controller/reconciler.rs while the stored resource is newer than the one that it
-- was called with: `update_status` reads the generation anew.
use k8s_operator_template.StateMachine.Event.{ResourceEvent}
use k8s_operator_template.StateMachine.Graph.{Edge}
use k8s_operator_template.Prelude.{
  ap, ◌∙◌, subst, ◌≤?◌, ℤ, false, ◌≡◌, refl, ◌≢◌, Option, some, List, ◌∷◌, arith,
}
use k8s_operator_template.Prelude.Result.{ok}
use k8s_operator_template.Crd.{
  creating, MyResource, MyResourceStatus, Phase, pending, running, updating,
}
use k8s_operator_template.Resources.Types.{Deployment}
use k8s_operator_template.Validation.Bounds.{InBounds}
use k8s_operator_template.Platform.Requests.{Platform, Request, patch_status}
use k8s_operator_template.Platform.Exec.{State}
use k8s_operator_template.Platform.Events.{Context}
use k8s_operator_template.Reconciler.Actions.{Action, ready_of, apply_params}
use k8s_operator_template.Reconciler.Loop.{
  namespace_of, phase_of, generation_ne, spec_changed, reconcile,
}
use k8s_operator_template.Reconciler.Moves.{IsLive}
use k8s_operator_template.Reconciler.Steady.Actions.{IsSteady}
use k8s_operator_template.Reconciler.Steady.Phases.{decide}
use k8s_operator_template.Reconciler.Steady.Visit.{reconcile-Visited}

abbrev pub recorded_in : MyResource → MyResourceStatus → MyResource
recorded_in current status = record current { status = some status }

-- A visit that succeeds and records a status, after which the stored resource `current` does not
-- count as changed, and no next visit goes to Updating from Running.
pub record Misses {P : Platform} (ctx : Context) (obj current : MyResource) (s : State P)
    (q : Phase) : Type 0 where
  pub action : Action
  pub end : State P
  pub status : MyResourceStatus
  pub earlier : List Request
  pub runs : reconcile ctx obj s ≡ (ok action, end)
  pub writes :
      end.log ≡ patch_status (namespace_of obj) obj.metadata.name_any apply_params status ∷ earlier
  pub phase : status.phase ≡ q
  pub unseen : spec_changed (recorded_in current status) ≡ false
  pub no_update : (n : ℤ) → decide (recorded_in current status) n running ≢ updating

same_generation : (g : Option ℤ) → generation_ne g g ≡ false
same_generation g = ground arith

no_update_of :
    (obj : MyResource) (n : ℤ) → spec_changed obj ≡ false → decide obj n running ≢ updating
unfolding decide
no_update_of obj n same = ground arith

module _ {P : Platform} (ctx : Context) (obj current : MyResource) (d : Deployment)
    (steady : IsSteady P obj current d) where
  -- On a steady platform, a visit to a live resource whose spec is within the bounds if it is
  -- pending records the generation of the stored object, which may be newer than the one that the
  -- visit worked on: with the recorded status the stored object does not count as changed, so that
  -- no visit to it in Running goes to Updating.
  pub reconcile-Misses :
      (s : State P)
      → IsLive obj
      → (phase_of obj.status ≡ pending → InBounds obj.spec.replicas)
      → Misses ctx obj current s (decide obj (ready_of d) (phase_of obj.status))
  unfolding spec_changed
  reconcile-Misses s alive fits =
      let v = reconcile-Visited ctx obj current d steady s alive fits in
      record {
        action = v.result;
        end = v.end;
        status = _;
        earlier = v.holds.status.earlier;
        runs = v.runs;
        writes = v.holds.status.latest;
        phase = refl;
        unseen = same_generation current.metadata.generation;
        no_update = λ n. no_update_of _ n (same_generation current.metadata.generation);
      }

-- A visit that succeeds and records the phase `q`, to which no event leads from the phase of the
-- stored resource `current`.
pub record Regresses {P : Platform} (ctx : Context) (obj current : MyResource) (s : State P)
    (q : Phase) : Type 0 where
  pub action : Action
  pub end : State P
  pub status : MyResourceStatus
  pub earlier : List Request
  pub runs : reconcile ctx obj s ≡ (ok action, end)
  pub writes :
      end.log ≡ patch_status (namespace_of obj) obj.metadata.name_any apply_params status ∷ earlier
  pub phase : status.phase ≡ q
  pub no_edge : (e : ResourceEvent) → ¬ Edge (phase_of current.status) e q

Edge-creating : {p q : Phase} {e : ResourceEvent} → Edge p e q → q ≡ creating → p ≡ pending
Edge-creating Edge.start h = refl
Edge-creating _ h = cc

running-no_Edge : (e : ResourceEvent) → ¬ Edge running e creating
running-no_Edge e h = cc (Edge-creating h refl)

short_decides :
    (obj : MyResource) (n : ℤ) → (obj.spec.replicas ≤? n) ≡ false → decide obj n creating ≡ creating
unfolding decide
short_decides obj n h = rw h refl

module _ {P : Platform} (ctx : Context) (obj current : MyResource) (d : Deployment)
    (steady : IsSteady P obj current d) where
  -- On a steady platform, a visit to a live resource that was read in Creating, while the stored
  -- object is in Running already and too few replicas are ready again: it records Creating, which
  -- no event of the life cycle reaches from Running.
  pub reconcile-Regresses :
      (s : State P)
      → IsLive obj
      → phase_of obj.status ≡ creating
      → phase_of current.status ≡ running
      → (obj.spec.replicas ≤? ready_of d) ≡ false
      → Regresses ctx obj current s creating
  reconcile-Regresses s alive old new short =
      let v = reconcile-Visited ctx obj current d steady s alive (λ h. cc) in
      record {
        action = v.result;
        end = v.end;
        status = _;
        earlier = v.holds.status.earlier;
        runs = v.runs;
        writes = v.holds.status.latest;
        phase = ap (decide obj (ready_of d)) old ∙ short_decides obj (ready_of d) short;
        no_edge = λ e h. running-no_Edge e (subst (λ p. Edge p e creating) new h);
      }
