-- ===== src/Cluster/Rollout.antt =====
-- How a change of the spec reaches the owned objects, by visits of src/controller/reconciler.rs on
-- a platform that answers and stores them.
use k8s_operator_template.Prelude.{true, ◌≡◌, refl, ◌∙◌, ap, subst, Option, some, List, ◌∷◌}
use k8s_operator_template.Prelude.Result.{Result, ok, IsOk}
use k8s_operator_template.Crd.{MyResource, MyResourceStatus, Phase, pending, running, updating}
use k8s_operator_template.Errors.{Error, from_secs}
use k8s_operator_template.Resources.Types.{Deployment}
use k8s_operator_template.Resources.Generate.{
  standard_labels, owner_reference, generate_configmap, generate_deployment, generate_service,
}
use k8s_operator_template.Platform.Requests.{Platform, Request, patch_status}
use k8s_operator_template.Platform.Exec.{State}
use k8s_operator_template.Platform.Events.{Context}
use k8s_operator_template.Reconciler.Actions.{Action, requeue, ready_of, apply_params}
use k8s_operator_template.Reconciler.Loop.{
  namespace_of, phase_of, spec_changed, requeue_duration, reconcile,
}
use k8s_operator_template.Reconciler.Moves.{IsLive, while_updating}
use k8s_operator_template.Reconciler.Settles.{status_of, IsSteady-after, IsLive-after}
use k8s_operator_template.Reconciler.Steady.Actions.{IsSteady}
use k8s_operator_template.Reconciler.Steady.Phases.{decide}
use k8s_operator_template.Reconciler.Steady.Visit.{reconcile-Visited}
use k8s_operator_template.Cluster.Owned.{Owned, IsProvisioned}
use k8s_operator_template.Cluster.Provision.{done, with_status, visits-provision}

-- Two visits, the second to the resource with the status that the first recorded; after the second
-- the owned objects are those of the resource.
pub record Rolls {P : Platform} (ctx : Context) (current obj : MyResource)
    (owned : Owned P (namespace_of obj) obj.metadata.name_any) (s : State P) : Type 0 where
  pub status : MyResourceStatus
  pub earlier : List Request
  pub between : State P
  pub first : reconcile ctx obj s ≡ (ok (requeue (from_secs 10)), between)
  pub recorded :
      between.log
      ≡ patch_status (namespace_of obj) obj.metadata.name_any apply_params status ∷ earlier
  pub phase : status.phase ≡ updating
  pub observed : status.observed_generation ≡ current.metadata.generation
  pub action : Action
  pub end : State P
  pub second : reconcile ctx (with_status obj (some status)) between ≡ (ok action, end)
  pub provisioned : IsProvisioned owned obj end.world

-- A change that was not observed takes a running resource to Updating.
changed_updates :
    (obj : MyResource) (d : Deployment)
    → phase_of obj.status ≡ running
    → spec_changed obj ≡ true
    → decide obj (ready_of d) (phase_of obj.status) ≡ updating
unfolding decide
changed_updates obj d at fresh = rw (at, fresh) refl

updating_waits : (q : Phase) → q ≡ updating → requeue_duration q ≡ from_secs 10
unfolding requeue_duration
updating_waits q h = rw h

updating_starts : {A : Type 0} (p : Phase) → p ≡ updating → p ≡ pending → A
updating_starts p h g = cc

running_starts : {A : Type 0} (p : Phase) → p ≡ running → p ≡ pending → A
running_starts p h g = cc

ran_ok :
    {A B : Type 0} {E : Type 0} (end : Result A E × B) (a : A) (b : B)
    → end ≡ (ok a, b)
    → IsOk end.0
ran_ok end a b h = rw h tt

module _ {P : Platform} (ctx : Context) (current : MyResource) (d : Deployment) where
  IsProvisioned-with_status :
      (obj : MyResource) (o : Option MyResourceStatus)
      (owned : Owned P (namespace_of obj) obj.metadata.name_any) (w : P.World)
      → IsProvisioned {namespace = namespace_of obj} {name = obj.metadata.name_any} owned
          (with_status obj o)
          w
      → IsProvisioned owned obj w
  unfolding generate_configmap generate_deployment generate_service standard_labels owner_reference
  IsProvisioned-with_status obj o owned w h = record {
    configmap = h.configmap;
    deployment = h.deployment;
    service = h.service;
  }

  -- On a steady platform that stores the owned objects: a visit to a live resource in Running whose
  -- spec has changed records the phase Updating and the generation that is stored, and asks for the
  -- next one in 10 seconds; the next one, to the resource with that status, leaves the owned
  -- objects stored as they are generated from the changed spec.
  pub change-Rolls :
      (obj : MyResource) (owned : Owned P (namespace_of obj) obj.metadata.name_any) (s : State P)
      → IsSteady P obj current d
      → IsLive obj
      → phase_of obj.status ≡ running
      → spec_changed obj ≡ true
      → Rolls ctx current obj owned s
  change-Rolls obj owned s steady alive at fresh =
      let v = reconcile-Visited ctx obj current d steady s alive (running_starts _ at) in
      let n = ready_of d in
      let status = status_of obj current n v.holds.status.now in
      let after = with_status obj (some status) in
      let moves = changed_updates obj d at fresh in
      let w =
        reconcile-Visited ctx after current d (IsSteady-after ctx current d obj _ steady) v.end
          (IsLive-after obj _ alive) (updating_starts _ moves) in
      record {
        status = status;
        earlier = v.holds.status.earlier;
        between = v.end;
        first =
            v.runs ∙ ap (λ a. (ok a, v.end)) (v.holds.action ∙ ap requeue (updating_waits _ moves));
        recorded = v.holds.status.latest;
        phase = moves;
        observed = refl;
        action = w.result;
        end = w.end;
        second = w.runs;
        provisioned = IsProvisioned-with_status obj (some status) owned w.end.world (
            subst (λ (x : Result Action Error × State P). IsProvisioned owned after x.1.world)
              w.runs
              (visits-provision ctx after owned v.end (IsLive-after obj _ alive)
                (while_updating moves) (ran_ok _ w.result w.end w.runs) done));
      }
