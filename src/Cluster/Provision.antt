-- ===== src/Cluster/Provision.antt =====
-- What a visit of src/controller/reconciler.rs leaves of the objects that the resource owns.
use k8s_operator_template.Prelude.{ℤ, Option, ◌≡◌, ◌∙◌, some}
use k8s_operator_template.Prelude.Result.{Result, ok, err, IsOk}
use k8s_operator_template.Crd.{MyResource, MyResourceStatus, Phase, creating, running, updating}
use k8s_operator_template.Errors.{Error}
use k8s_operator_template.Resources.Generate.{
  standard_labels, owner_reference, generate_configmap, generate_deployment, generate_service,
}
use k8s_operator_template.Platform.Requests.{
  Platform, apply_configmap, apply_deployment, apply_service,
}
use k8s_operator_template.Platform.Exec.{State, Exec, call, start_timer, ◌>>=◌}
use k8s_operator_template.Platform.Events.{Context}
use k8s_operator_template.Platform.Contracts.{Any, Does, Does-bind}
use k8s_operator_template.Platform.Outcomes.{
  Outcome, Ended, Ended-bind, Ended-map, Ended-call, Ended-keeps,
}
use k8s_operator_template.Reconciler.Actions.{
  forced_params, Action, create_owned_resources, check_ready_replicas,
}
use k8s_operator_template.Reconciler.Loop.{
  namespace_of, phase_of, stay_running, from_creating, from_running, from_updating, next_phase,
  finish, progress, dispatch, reconcile,
}
use k8s_operator_template.Reconciler.Moves.{
  Moves, IsLive, Applies, while_creating, while_updating, while_running,
}
use k8s_operator_template.Reconciler.Footprint.{finish-Does, reconcile-Does}
use k8s_operator_template.Reconciler.Footprint.Actions.{check-Does}
use k8s_operator_template.Reconciler.Footprint.Branches.{
  created-Does, still_running-Does, updated-Does,
}
use k8s_operator_template.Cluster.Owned.{Owned, IsProvisioned, IsProvisioned-Keeps}

module _ {P : Platform} (obj : MyResource)
    (owned : Owned P (namespace_of obj) obj.metadata.name_any) where
  -- What holds at the end of an action that has a result.
  abbrev Provides : {A : Type 0} → (A → Type 0) → Exec P A → State P → Type 0
  Provides R m s = Ended m s (λ a t. R a × IsProvisioned owned obj t.world) (λ e t. Unit)

  create-Provides : (s : State P) → Provides Any (create_owned_resources obj (namespace_of obj)) s
  unfolding create_owned_resources
  create-Provides s =
      let maps =
        apply_configmap (namespace_of obj) obj.metadata.name_any forced_params
          (generate_configmap obj) in
      let deploys =
        apply_deployment (namespace_of obj) obj.metadata.name_any forced_params
          (generate_deployment obj) in
      let serves =
        apply_service (namespace_of obj) obj.metadata.name_any forced_params
          (generate_service obj) in
      Ended-bind (call maps) (λ _. call deploys >>= λ _. call serves) s
        (λ _ t. owned.configmap t.world ≡ some (generate_configmap obj)) (λ e t. Unit) _ _
        (Ended-call maps s _ _
          (λ a e. owned.applies_configmap.takes s.world forced_params _ (rw e tt)) λ k. tt)
        (λ _ t first.
          Ended-bind (call deploys) (λ _. call serves) t
            (λ _ u.
              (owned.configmap u.world ≡ some (generate_configmap obj))
              × (owned.deployment u.world ≡ some (generate_deployment obj)))
            (λ e t. Unit) _ _
            (Ended-call deploys t _ _
              (λ a e. (
                owned.applies_configmap.spares deploys t.world tt ∙ first,
                owned.applies_deployment.takes t.world forced_params _ (rw e tt),
              ))
              λ k. tt)
            (λ _ u both.
              Ended-call serves u _ _
                (λ a e. (
                  tt,
                  record {
                    configmap = owned.applies_configmap.spares serves u.world tt ∙ both.0;
                    deployment = owned.applies_deployment.spares serves u.world tt ∙ both.1;
                    service = owned.applies_service.takes u.world forced_params _ (rw e tt);
                  },
                ))
                λ k. tt)
            λ e u k. tt)
        λ e t k. tt

  module _ (ctx : Context) (alive : IsLive obj) where
    -- The phase is decided once the owned objects are applied.
    applied-Provides :
        (p : Phase) (f : Exec P Phase) (s : State P)
        → Does (λ t. IsProvisioned owned obj t.world) (Moves obj p) f
        → Provides (Moves obj p) (create_owned_resources obj (namespace_of obj) >>= λ _. f) s
    applied-Provides p f s rest =
        Ended-bind (create_owned_resources obj (namespace_of obj)) (λ _. f) s _ _ _ _
          (create-Provides s) (λ _ t h. Ended-keeps _ _ f t rest (h.1)) λ e t h. h

    checked :
        (p : Phase) (f : ℤ → Exec P Phase)
        → ((n : ℤ) → Does (λ t. IsProvisioned owned obj t.world) (Moves obj p) (f n))
        → Does
            (λ t. IsProvisioned owned obj t.world)
            (Moves obj p)
            (check_ready_replicas obj (namespace_of obj) >>= f)
    checked p f rest =
        Does-bind Any _ _ f (check-Does ctx obj (IsProvisioned-Keeps obj owned) alive) λ n _. rest n

    next_phase-Provides :
        (s : State P)
        → Applies obj
        → Provides (Moves obj (phase_of obj.status)) (next_phase ctx obj (phase_of obj.status)) s
    unfolding next_phase from_creating from_updating from_running stay_running
    next_phase-Provides s (while_creating at) = rw at (
        applied-Provides creating _ s
          (checked creating _ (created-Does ctx obj (IsProvisioned-Keeps obj owned) alive)))
    next_phase-Provides s (while_updating at) = rw at (
        applied-Provides updating _ s
          (checked updating _ (updated-Does ctx obj (IsProvisioned-Keeps obj owned) alive)))
    next_phase-Provides s (while_running at same) =
        rw (at, same)
          (applied-Provides running _ s (
            checked running _
              (still_running-Does ctx obj (IsProvisioned-Keeps obj owned) alive same)))

    progress-Provides :
        (timer : P.Instant) (s : State P) → Applies obj → Provides Any (progress ctx obj timer) s
    unfolding progress
    progress-Provides timer s may =
        Ended-bind (next_phase ctx obj (phase_of obj.status)) (finish ctx obj timer) s _ _ _ _
          (next_phase-Provides s may)
          (λ q t h.
            Ended-map (finish ctx obj timer q) t _ _ _ _
              (Ended-keeps _ _ _ t
                (finish-Does ctx obj (IsProvisioned-Keeps obj owned) alive timer q (h.0)) (h.1))
              (λ a u k. (tt, k.1)) λ e u k. k)
          λ e t h. h

    dispatch-Provides :
        (timer : P.Instant) (s : State P) → Applies obj → Provides Any (dispatch ctx obj timer) s
    dispatch-Provides timer s may = rw (alive.kept, alive.claimed) (progress-Provides timer s may)

visit-provisions :
    {P : Platform} (ctx : Context) (obj : MyResource)
    (owned : Owned P (namespace_of obj) obj.metadata.name_any) (s : State P)
    → IsLive obj
    → Applies obj
    → IsOk (reconcile ctx obj s).0
    → IsProvisioned owned obj (reconcile ctx obj s).1.world
unfolding reconcile start_timer ◌>>=◌
visit-provisions {P} ctx obj owned s alive may succeeded =
    let timer = (P.start_timer s.world).0 in
    let t : State P = record s { world = (P.start_timer s.world).1 } in
    of_ok _ (dispatch ctx obj timer t) (dispatch-Provides obj owned ctx alive timer t may).outcome
      succeeded
  where
    of_ok :
        {P : Platform} (I : State P → Type 0) (end : Result Action Error × State P)
        → Outcome (λ a t. Unit × I t) (λ e t. Unit) end
        → IsOk end.0
        → I end.1
    of_ok I (ok a, t) h k = h.1
    of_ok I (err e, t) h k = absurd k

abbrev pub with_status : MyResource → Option MyResourceStatus → MyResource
with_status obj status = record obj { status = status }

-- Visits to the resource in any status, whatever fails.
pub data Again {P : Platform} (ctx : Context) (obj : MyResource) (s : State P)
    : State P → Type 0 where
  done : Again ctx obj s s
  more :
      {t : State P} (status : Option MyResourceStatus)
      → Again ctx obj s t
      → Again ctx obj s (reconcile ctx (with_status obj status) t).1

module _ {P : Platform} (ctx : Context) (obj : MyResource)
    (owned : Owned P (namespace_of obj) obj.metadata.name_any) where
  visit_keeps :
      (status : Option MyResourceStatus) (s : State P)
      → IsProvisioned owned obj s.world
      → IsProvisioned owned obj (reconcile ctx (with_status obj status) s).1.world
  unfolding generate_configmap generate_deployment generate_service standard_labels owner_reference
  visit_keeps status s h =
      let after =
        ((reconcile-Does ctx (with_status obj status)
            (IsProvisioned-Keeps (with_status obj status) owned)).at
          s
          (record { configmap = h.configmap; deployment = h.deployment; service = h.service })).0 in
      record { configmap = after.configmap; deployment = after.deployment; service = after.service }

  Again-keeps :
      {s t : State P}
      → Again ctx obj s t
      → IsProvisioned owned obj s.world
      → IsProvisioned owned obj t.world
  Again-keeps done h = h
  Again-keeps (more {t} status rest) h = visit_keeps status t (Again-keeps rest h)

  -- From any state of the cluster, where nothing else applies these objects: a successful visit to
  -- a live resource in Creating or Updating, or in Running with the spec unchanged, leaves its
  -- ConfigMap, its Deployment and its Service stored as they are generated from it, and any number
  -- of visits to it after that, in any status and whatever fails, leave them so.
  pub visits-provision :
      (s : State P) {t : State P}
      → IsLive obj
      → Applies obj
      → IsOk (reconcile ctx obj s).0
      → Again ctx obj (reconcile ctx obj s).1 t
      → IsProvisioned owned obj t.world
  visits-provision s alive may succeeded rest =
      Again-keeps rest (visit-provisions ctx obj owned s alive may succeeded)
