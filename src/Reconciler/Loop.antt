-- ===== src/Reconciler/Loop.antt =====
-- `reconcile` and `error_policy` of src/controller/reconciler.rs. Log lines are left out.
use k8s_operator_template.Prelude.{
  ℤ, pos, String, Bool, true, false, not, Option, none, some, List, [], ◌∷◌, ◌<?◌, ◌≤?◌, ◌=?◌,
  str_eq, format, to_string, is_some, unwrap_or, if◌then◌else◌,
}
use k8s_operator_template.Prelude.Result.{Result, ok, err, or_default}
use k8s_operator_template.Crd.{
  MyResource, MyResourceStatus, Phase, pending, creating, running, updating, degraded, failed,
  deleting,
}
use k8s_operator_template.Errors.{
  Error, ErrorStatus, Duration, from_secs, display, is_not_found, is_retryable, requeue_after,
}
use k8s_operator_template.Validation.{observed_generation}
use k8s_operator_template.Health.{
  Prometheus, HealthState, record_reconcile, record_error, set_resource_replicas,
}
use k8s_operator_template.Platform.Requests.{Platform}
use k8s_operator_template.Platform.Exec.{
  State, Exec, pure, raise, attempt, start_timer, elapsed, with_health, ◌>>=◌, ◌>>◌,
}
use k8s_operator_template.Platform.Events.{Context, publish_normal_event, publish_warning_event}
use k8s_operator_template.Reconciler.Actions.{
  finalizer, Action, requeue, await_change, validate_spec, handle_deletion, add_finalizer,
  create_owned_resources, check_ready_replicas, update_status,
}

-- `obj.finalizers().iter().any(|f| f == FINALIZER)`
unfoldable pub has_finalizer : List String → Bool
has_finalizer [] = false
has_finalizer (f ∷ fs) = if str_eq f finalizer then true else has_finalizer fs

abbrev pub namespace_of : MyResource → String
namespace_of obj = unwrap_or obj.metadata.namespace "default"

abbrev pub phase_of : Option MyResourceStatus → Phase
phase_of none = pending
phase_of (some status) = status.phase

-- `!=` of two optional generations.
abbrev pub generation_ne : Option ℤ → Option ℤ → Bool
generation_ne none none = false
generation_ne (some a) (some b) = not (a =? b)
generation_ne _ _ = true

unfoldable pub spec_changed : MyResource → Bool
spec_changed obj = generation_ne (observed_generation obj.status) obj.metadata.generation

unfoldable pub requeue_duration : Phase → Duration
requeue_duration running = from_secs 60
requeue_duration creating = from_secs 10
requeue_duration updating = from_secs 10
requeue_duration degraded = from_secs 30
requeue_duration failed = from_secs 300
requeue_duration _ = from_secs 30

-- `"{}/{}"` of the ready and the desired count, in a message.
unfoldable pub ratio : String → ℤ → ℤ → String → String
ratio before ready desired after =
    format (before ∷ to_string ready ∷ "/" ∷ to_string desired ∷ after ∷ [])

-- The action for an error of `reconcile`, with the API's not-found test.
unfoldable pub error_action : (ErrorStatus → Bool) → Error → Action
error_action status_not_found error =
    if is_not_found status_not_found error
    then await_change
    else if is_retryable error
    then requeue (requeue_after error)
    else requeue (from_secs 300)

-- The metrics that a visit records.
abbrev pub visited : (p : Prometheus) → MyResource → p.Seconds → ℤ → HealthState p → HealthState p
visited p obj duration ready_replicas h = record h {
  metrics =
      set_resource_replicas p (namespace_of obj) obj.metadata.name_any obj.spec.replicas
        ready_replicas
        (record_reconcile p (namespace_of obj) obj.metadata.name_any duration h.metrics);
}

module _ {P : Platform} (ctx : Context) (obj : MyResource) where
  -- `Phase::Pending` of the `match`: a spec that is refused leaves the resource failed, and the
  -- error is the result.
  abbrev pub refuse : Error → Exec P Phase
  refuse e = do
    let reason = display P.show_kube e
    publish_warning_event ctx obj "ValidationFailed" "Validating" (some reason)
    update_status (namespace_of obj) obj.metadata.name_any failed (pos 0) (some reason)
    raise e

  abbrev pub accept : Exec P Phase
  accept = do
    publish_normal_event ctx obj "Creating" "CreateResources" (some "Starting resource creation")
    pure creating

  abbrev pub from_validated : Result (Unit {0}) Error → Exec P Phase
  from_validated (err e) = refuse e
  from_validated (ok _) = accept

  unfoldable pub from_pending : Exec P Phase
  from_pending = from_validated (validate_spec obj)

  -- The test of `from_creating`, once the ready count is read.
  abbrev pub created : ℤ → Exec P Phase
  created ready_replicas =
      if obj.spec.replicas ≤? ready_replicas
      then (do
        publish_normal_event ctx obj "Ready" "Reconciling"
            (some (ratio "Resource is ready with " ready_replicas obj.spec.replicas " replicas"))
        pure running)
      else pure creating

  unfoldable pub from_creating : Exec P Phase
  from_creating = do
    create_owned_resources obj (namespace_of obj)
    ready_replicas ← check_ready_replicas obj (namespace_of obj)
    created ready_replicas

  -- The test of `stay_running`.
  abbrev pub still_running : ℤ → Exec P Phase
  still_running ready_replicas =
      if ready_replicas <? obj.spec.replicas
      then (do
        publish_warning_event ctx obj "Degraded" "Reconciling"
            (some (ratio "Resource degraded: " ready_replicas obj.spec.replicas " replicas ready"))
        pure degraded)
      else pure running

  -- `Phase::Running` with the spec unchanged.
  unfoldable pub stay_running : Exec P Phase
  stay_running = do
    create_owned_resources obj (namespace_of obj)
    ready_replicas ← check_ready_replicas obj (namespace_of obj)
    still_running ready_replicas

  unfoldable pub from_running : Exec P Phase
  unfolding stay_running
  from_running =
      if spec_changed obj
      then (do
        publish_normal_event ctx obj "SpecChanged" "Updating"
            (some "Resource spec changed, applying updates")
        pure updating)
      else stay_running

  -- The test of `from_updating`.
  abbrev pub updated : ℤ → Exec P Phase
  updated ready_replicas =
      if obj.spec.replicas ≤? ready_replicas
      then (do
        publish_normal_event ctx obj "Updated" "Updating"
            (some "Resource update completed successfully")
        pure running)
      else pure updating

  unfoldable pub from_updating : Exec P Phase
  from_updating = do
    create_owned_resources obj (namespace_of obj)
    ready_replicas ← check_ready_replicas obj (namespace_of obj)
    updated ready_replicas

  -- The tests of `from_degraded`.
  abbrev pub recovered : ℤ → Exec P Phase
  recovered ready_replicas =
      if obj.spec.replicas ≤? ready_replicas
      then (do
        publish_normal_event ctx obj "Recovered" "Reconciling"
            (some (ratio "Resource recovered: " ready_replicas obj.spec.replicas " replicas ready"))
        pure running)
      else if ready_replicas =? pos 0
      then (do
        publish_warning_event ctx obj "Failed" "Reconciling"
            (some "Resource failed: no replicas available")
        pure failed)
      else pure degraded

  unfoldable pub from_degraded : Exec P Phase
  from_degraded = do
    ready_replicas ← check_ready_replicas obj (namespace_of obj)
    recovered ready_replicas

  -- The `match` on the current phase.
  unfoldable pub next_phase : Phase → Exec P Phase
  next_phase pending = from_pending
  next_phase creating = from_creating
  next_phase running = from_running
  next_phase updating = from_updating
  next_phase degraded = from_degraded
  next_phase failed = pure failed
  next_phase deleting = pure deleting

  -- The status, the metrics and the next visit, once the phase is known.
  unfoldable pub finish : P.Instant → Phase → Exec P Action
  finish start_time next = do
    counted ← attempt (check_ready_replicas obj (namespace_of obj))
    let ready_replicas = or_default counted (pos 0)
    update_status (namespace_of obj) obj.metadata.name_any next ready_replicas none
    duration ← elapsed start_time
    with_health (visited P.prometheus obj duration ready_replicas)
    pure (requeue (requeue_duration next))

  -- The part of `reconcile` for a resource that is not being deleted and has the finalizer.
  unfoldable pub progress : P.Instant → Exec P Action
  progress start_time = do next ← next_phase (phase_of obj.status); finish start_time next

  unfoldable pub claim : Exec P Action
  claim = do add_finalizer (namespace_of obj) obj.metadata.name_any; pure (requeue (from_secs 1))

  abbrev pub dispatch : P.Instant → Exec P Action
  dispatch start_time =
      if is_some obj.metadata.deletion_timestamp
      then handle_deletion obj (namespace_of obj)
      else if not (has_finalizer obj.metadata.finalizers)
      then claim
      else progress start_time

  unfoldable pub reconcile : Exec P Action
  reconcile = do start_time ← start_timer; dispatch start_time

  unfoldable pub error_policy : Error → State P → Action × State P
  unfolding error_action
  error_policy error s =
      let (_, s') =
        with_health
          (λ h. record h {
            metrics = record_error P.prometheus (namespace_of obj) obj.metadata.name_any h.metrics;
          })
          s in
      (error_action P.status_not_found error, s')
