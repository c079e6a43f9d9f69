-- ===== src/Reconciler/Settles/Creation.antt =====
-- The visits of src/controller/reconciler.rs to a resource from its creation on.
use k8s_operator_template.Prelude.{
  ℤ, true, false, ◌≡◌, refl, ◌∙◌, ap, subst, ◌≤?◌, none, is_some, [], ◌∷◌,
}
use k8s_operator_template.Prelude.Result.{Result, ok}
use k8s_operator_template.Crd.{MyResource, running}
use k8s_operator_template.Errors.{KubeError, from_secs}
use k8s_operator_template.Resources.Types.{Deployment}
use k8s_operator_template.Validation.Bounds.{InBounds}
use k8s_operator_template.Platform.Requests.{Platform}
use k8s_operator_template.Platform.Exec.{State}
use k8s_operator_template.Platform.Events.{Context}
use k8s_operator_template.Reconciler.Actions.{requeue, ready_of}
use k8s_operator_template.Reconciler.Finalizer.{
  patched, claim_patch, after_patch, reconcile-unclaimed,
}
use k8s_operator_template.Reconciler.Loop.{has_finalizer, requeue_duration, reconcile}
use k8s_operator_template.Reconciler.Moves.{IsLive}
use k8s_operator_template.Reconciler.Settles.{
  Leads, delay_after, claiming_visit, claimed_as, reconcile-settles,
}
use k8s_operator_template.Reconciler.Steady.Actions.{IsSteady}
use k8s_operator_template.Reconciler.Steady.Phases.{decide}

new_waits : (obj : MyResource) (n : ℤ) → obj.status ≡ none → delay_after obj n ≡ from_secs 10
unfolding decide requeue_duration
new_waits obj n blank = rw blank refl

claimed-IsLive :
    (obj : MyResource) → is_some obj.metadata.deletion_timestamp ≡ false → IsLive (claimed_as obj)
unfolding has_finalizer
claimed-IsLive obj here = record { kept = here; claimed = refl }

module _ {P : Platform} (ctx : Context) (current : MyResource) (d : Deployment) where
  IsSteady-claimed :
      (obj : MyResource) → IsSteady P obj current d → IsSteady P (claimed_as obj) current d
  IsSteady-claimed obj steady = record {
    reads_deployment = steady.reads_deployment;
    reads_resource = steady.reads_resource;
    writes_status = steady.writes_status;
    applies_configmap = steady.applies_configmap;
    applies_deployment = steady.applies_deployment;
    applies_service = steady.applies_service;
  }

  -- A visit that claims the resource, on a platform that accepts the patch.
  claims_it :
      (obj : MyResource) (s : State P)
      → ((w : P.World) → (P.perform (claim_patch obj) w).0 ≡ ok tt)
      → is_some obj.metadata.deletion_timestamp ≡ false
      → has_finalizer obj.metadata.finalizers ≡ false
      → reconcile ctx obj s ≡ (ok (requeue (from_secs 1)), after_patch (claim_patch obj) s)
  claims_it obj s accepts here foreign =
      reconcile-unclaimed ctx obj s here foreign
      ∙ ap
          (λ (r : Result (Unit {0}) KubeError).
            (patched r (requeue (from_secs 1)), after_patch {P = P} (claim_patch obj) s))
          (accepts (P.start_timer s.world).1)

  -- On a steady platform that accepts the operator's finalizer, with enough ready replicas, where
  -- the stored object has the generation of the resource: three visits, the first of which claims
  -- it, bring a resource from its creation, without a status and unclaimed, to Running, if its spec
  -- is within the bounds and it is not being deleted; they ask for the next visit in 1, 10 and 60
  -- seconds.
  pub creation-settles :
      (obj : MyResource) (s : State P)
      → IsSteady P obj current d
      → ((w : P.World) → (P.perform (claim_patch obj) w).0 ≡ ok tt)
      → is_some obj.metadata.deletion_timestamp ≡ false
      → has_finalizer obj.metadata.finalizers ≡ false
      → obj.status ≡ none
      → current.metadata.generation ≡ obj.metadata.generation
      → InBounds obj.spec.replicas
      → (obj.spec.replicas ≤? ready_of d) ≡ true
      → Leads ctx obj s
          (requeue (from_secs 1) ∷ requeue (from_secs 10) ∷ requeue (from_secs 60) ∷ [])
          running
  creation-settles obj s steady accepts here foreign blank observed fits enough =
      let rest =
        subst
          (λ w.
            Leads ctx (claimed_as obj) (after_patch (claim_patch obj) s)
              (requeue w ∷ requeue (from_secs 60) ∷ []) running)
          (new_waits (claimed_as obj) (ready_of d) blank)
          (reconcile-settles ctx current d (claimed_as obj) (after_patch (claim_patch obj) s)
            (IsSteady-claimed obj steady) (claimed-IsLive obj here) observed fits enough
            (rw blank (λ h. cc)) (rw blank (λ h. cc))) in
      record {
        after = rest.after;
        end = rest.end;
        path = claiming_visit (claims_it obj s accepts here foreign) refl rest.path;
        phase = rest.phase;
      }
