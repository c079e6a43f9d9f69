-- ===== src/Reconciler/Footprint.antt =====
-- The requests and the actions of src/controller/reconciler.rs, on any platform.
pub mod Actions
pub mod Branches
use k8s_operator_template.Prelude.{
  ℤ, pos, String, Bool, true, false, not, ◌≡◌, refl, sym, ◌↔◌, ◌⊎◌, inl, inr, Option, none, some,
  List, [], is_some, ◌≤?◌, ◌<?◌, ◌=?◌, Bool-cases, arith, if◌then◌else◌,
}
use k8s_operator_template.Prelude.Json.{Json}
use k8s_operator_template.Prelude.Result.{Result, ok, err, IsOk, or_default}
use k8s_operator_template.Crd.{
  MyResource, MyResourceStatus, Phase, pending, creating, running, updating, degraded, failed,
  deleting,
}
use k8s_operator_template.Errors.{
  Error, KubeError, kube, api, service, other, validation, from_secs,
}
use k8s_operator_template.Validation.Bounds.{InBounds}
use k8s_operator_template.Resources.Types.{Deployment}
use k8s_operator_template.Resources.Generate.{
  generate_configmap, generate_deployment, generate_service,
}
use k8s_operator_template.Platform.Requests.{
  Platform, Event, get_resource, patch_status, get_deployment, apply_configmap, apply_deployment,
  apply_service, publish, merge_patch, PatchParams,
}
use k8s_operator_template.Platform.Exec.{
  State, Exec, pure, raise, send, call, ◌>>=◌, attempt, start_timer, with_health, elapsed,
}
use k8s_operator_template.Platform.Events.{Context, publish_normal_event, publish_warning_event}
use k8s_operator_template.Platform.Contracts.{
  Keeps, All-Keeps, All, Returns, Does, Any, Does-pure, Does-raise, Does-bind, Does-send, Does-call,
  Does-attempt, Does-timestamp, Does-start_timer, Does-elapsed, Does-with_health,
}
use k8s_operator_template.Reconciler.Actions.{
  apply_params, forced_params, Action, requeue, await_change, validate_spec, ready_count,
  add_finalizer, remove_finalizer, handle_deletion, create_owned_resources, check_ready_replicas,
  update_status,
}
use k8s_operator_template.Reconciler.Loop.{
  has_finalizer, requeue_duration, namespace_of, phase_of, spec_changed, refuse, accept,
  from_validated, from_pending, from_creating, created, still_running, updated, recovered,
  stay_running, from_running, from_updating, from_degraded, next_phase, finish, progress, claim,
  dispatch, reconcile,
}
use k8s_operator_template.Reconciler.Moves
use k8s_operator_template.Reconciler.Moves.{
  Moves, IsLive, Applies, while_creating, while_updating, while_running, Patches, release, Allowed,
}
use Actions.{check-Does, update-Does}
use Branches.{next_phase-Does}

-- The action of a visit that succeeds: none for a deleted resource, a visit after a second to see
-- the claim, and else after a time that depends on the new phase.
pub data Returning (obj : MyResource) (a : Action) : Type 0 where
  gives_up : is_some obj.metadata.deletion_timestamp ≡ true → a ≡ await_change → Returning obj a
  takes_on :
      is_some obj.metadata.deletion_timestamp ≡ false
      → has_finalizer obj.metadata.finalizers ≡ false
      → a ≡ requeue (from_secs 1)
      → Returning obj a
  goes_on :
      IsLive obj
      → (q : Phase) → Moves obj (phase_of obj.status) q
      → a ≡ requeue (requeue_duration q)
      → Returning obj a

module _ {P : Platform} (ctx : Context) (obj : MyResource) {I : State P → Type 0}
    (keeps : Keeps (Allowed obj) I) where
  pub finish-Does :
      IsLive obj
      → (t : P.Instant) (q : Phase) → Moves obj (phase_of obj.status) q
      → Does I (Returning obj) (finish ctx obj t q)
  unfolding finish
  finish-Does alive t q moves =
      let R = Returning obj in
      Does-bind Any R _ _ (Does-attempt _ (check-Does ctx obj keeps alive)) λ r _.
        Does-bind Any R _ _ (update-Does ctx obj keeps alive q _ none moves) λ _ _.
          Does-bind Any R _ _ (Does-elapsed keeps t) λ d _.
            Does-bind Any R _ _ (Does-with_health keeps _)
              λ _ _. Does-pure R _ (goes_on alive q moves refl)

  progress-Does : IsLive obj → (t : P.Instant) → Does I (Returning obj) (progress ctx obj t)
  unfolding progress
  progress-Does alive t =
      Does-bind (Moves obj (phase_of obj.status)) (Returning obj) _ _
        (next_phase-Does ctx obj keeps alive (phase_of obj.status) refl)
        λ q moves. finish-Does alive t q moves

  patch-Does :
      (params : PatchParams) (j : Json)
      → Patches obj j
      → Does I Any (call (merge_patch (namespace_of obj) obj.metadata.name_any params j))
  patch-Does params j may =
      Does-call keeps (merge_patch (namespace_of obj) obj.metadata.name_any params j)
        ((refl, refl), may)

  dispatch-Does : (t : P.Instant) → Does I (Returning obj) (dispatch ctx obj t)
  unfolding claim add_finalizer handle_deletion remove_finalizer
  dispatch-Does t = elim (Bool-cases (is_some obj.metadata.deletion_timestamp)) [
    | inl gone ↦ rw gone (
        Does-bind Any (Returning obj) _ _ (patch-Does _ _ (release gone refl))
          λ _ _. Does-pure (Returning obj) _ (gives_up gone refl))
    | inr kept ↦ elim (Bool-cases (has_finalizer obj.metadata.finalizers)) [
      | inl mine ↦ rw (kept, mine) (progress-Does (record { kept = kept; claimed = mine }) t)
      | inr foreign ↦
          rw (kept, foreign)
            (Does-bind Any (Returning obj) _ _ (patch-Does _ _ (Patches.claim kept foreign refl))
              λ _ _. Does-pure (Returning obj) _ (takes_on kept foreign refl))
    ]
  ]

  -- An invariant that the allowed requests keep, whatever they are answered, is kept by a
  -- reconciliation, and its action is one of `Returning`.
  pub reconcile-Does : Does I (Returning obj) (reconcile ctx obj)
  unfolding reconcile
  reconcile-Does =
      Does-bind Any (Returning obj) _ _ (Does-start_timer keeps) (λ t _. dispatch-Does t)

module _ {P : Platform} (ctx : Context) (obj : MyResource) where
  -- Whatever the platform answers, a reconciliation adds to a log of allowed requests only
  -- requests that are allowed for its resource: each names the resource itself; the finalizer
  -- patches come only when the resource is deleted or unclaimed; the owned objects are applied
  -- as generated, in the phases Creating and Updating and, with the spec unchanged, Running; a
  -- status records a phase change of `Moves`.
  pub reconcile-Allowed :
      (s : State P) → All (Allowed obj) s.log → All (Allowed obj) (reconcile ctx obj s).1.log
  reconcile-Allowed s h = ((reconcile-Does ctx obj (All-Keeps (Allowed obj))).at s h).0
