-- ===== src/Reconciler/Actions.antt =====
-- The parts of src/controller/reconciler.rs that `reconcile` is made of: the check of the spec, the
-- finalizer patches, the owned objects, the ready count and the status.
use k8s_operator_template.Prelude.{
  ℤ, pos, String, true, false, Option, none, some, List, [], ◌∷◌, ◌<?◌, format, unwrap_or,
  if◌then◌else◌,
}
use k8s_operator_template.Prelude.Json.{Json, text, null, array, object, nil, cons, end, field}
use k8s_operator_template.Prelude.Result.{Result, ok, err}
use k8s_operator_template.Crd.{MyResource, Phase, running, failed, phase_eq, phase_name}
use k8s_operator_template.Crd.Condition
use k8s_operator_template.Crd.Condition.{Condition}
use k8s_operator_template.Errors.{Error, validation, kube, KubeError, api, Duration}
use k8s_operator_template.Resources.Types.{Deployment}
use k8s_operator_template.Resources.Generate.{
  generate_configmap, generate_deployment, generate_service,
}
use k8s_operator_template.Platform.Requests.{
  Platform, PatchParams, get_resource, merge_patch, patch_status, get_deployment, apply_configmap,
  apply_deployment, apply_service,
}
use k8s_operator_template.Platform.Exec.{Exec, pure, raise, send, call, timestamp, ◌>>=◌, ◌>>◌}

abbrev pub field_manager : String
field_manager = "my-operator"

abbrev pub finalizer : String
finalizer = "myoperator.example.com/finalizer"

-- `Action` of kube's controller runtime.
pub data Action : Type 0 where
  requeue : Duration → Action
  await_change : Action

abbrev pub apply_params : PatchParams
apply_params = record { field_manager = field_manager; force = false }

abbrev pub forced_params : PatchParams
forced_params = record { field_manager = field_manager; force = true }

unfoldable pub validate_spec : MyResource → Result (Unit {0}) Error
validate_spec obj =
    if obj.spec.replicas <? pos 1
    then err (validation "replicas must be at least 1")
    else if pos 10 <? obj.spec.replicas
    then err (validation "replicas cannot exceed 10")
    else ok tt

-- `{"metadata": {"finalizers": value}}`
abbrev pub finalizers_patch : Json → Json
finalizers_patch value = object (field "metadata" (object (field "finalizers" value end)) end)

-- The conditions that `update_status` writes for a phase.
unfoldable pub phase_conditions : String → Phase → Option String → Option ℤ → List Condition
phase_conditions now phase error_message generation =
    if phase_eq phase running
    then Condition.ready now true "AllReplicasReady" "All replicas are ready" generation ∷ []
    else if phase_eq phase failed
    then Condition.ready now false "ReconciliationFailed"
        (unwrap_or error_message "Resource failed") generation
      ∷ []
    else Condition.progressing now true "Reconciling" (format ("Phase: " ∷ phase_name phase ∷ []))
        generation
      ∷ []

-- `deployment.status.as_ref().and_then(|s| s.ready_replicas).unwrap_or(0)`
abbrev pub ready_of : Deployment → ℤ
ready_of d = elim d.status [ none ↦ pos 0 | some status ↦ unwrap_or status.ready_replicas (pos 0) ]

module _ {P : Platform} where
  -- The `match` on the answer to the read of the deployment.
  abbrev pub ready_count : Result Deployment KubeError → Exec P ℤ
  ready_count (ok deployment) = pure (ready_of deployment)
  ready_count (err (api s)) = if P.status_not_found s then pure (pos 0) else raise (kube (api s))
  ready_count (err e) = raise (kube e)

  -- `namespace` is that of the `Api`.
  unfoldable pub add_finalizer : String → String → Exec P (Unit {0})
  add_finalizer namespace name = call (
      merge_patch namespace name apply_params
        (finalizers_patch (array (cons (text finalizer) nil))))

  unfoldable pub remove_finalizer : String → String → Exec P (Unit {0})
  remove_finalizer namespace name =
      call (merge_patch namespace name forced_params (finalizers_patch null))

  unfoldable pub handle_deletion : MyResource → String → Exec P Action
  unfolding remove_finalizer
  handle_deletion obj namespace = do
    remove_finalizer namespace obj.metadata.name_any
    pure await_change

  unfoldable pub create_owned_resources : MyResource → String → Exec P (Unit {0})
  create_owned_resources obj namespace = do
    let name = obj.metadata.name_any
    call (apply_configmap namespace name forced_params (generate_configmap obj))
    call (apply_deployment namespace name forced_params (generate_deployment obj))
    call (apply_service namespace name forced_params (generate_service obj))

  unfoldable pub check_ready_replicas : MyResource → String → Exec P ℤ
  check_ready_replicas obj namespace = do
    answer ← send (get_deployment namespace obj.metadata.name_any)
    ready_count answer

  unfoldable pub update_status : String → String → Phase → ℤ → Option String → Exec P (Unit {0})
  update_status namespace name phase ready_replicas error_message = do
    current ← call (get_resource namespace name)
    now ← timestamp
    let generation = current.metadata.generation
    call (
        patch_status namespace name apply_params (record {
          phase = phase;
          ready_replicas = ready_replicas;
          observed_generation = generation;
          conditions = phase_conditions now phase error_message generation;
        }))
