-- ===== src/Reconciler/Footprint/Actions.antt =====
-- What the actions of src/controller/reconciler.rs ask of the cluster.
use k8s_operator_template.Prelude.{ℤ, String, refl, ◌↔◌, inl, inr, Option, Bool-cases, arith}
use k8s_operator_template.Prelude.Result.{Result, ok, err, IsOk}
use k8s_operator_template.Crd.{MyResource, MyResourceStatus, Phase}
use k8s_operator_template.Errors.{KubeError, api, service, other}
use k8s_operator_template.Validation.Bounds.{InBounds}
use k8s_operator_template.Resources.Types.{Deployment}
use k8s_operator_template.Resources.Generate.{
  generate_configmap, generate_deployment, generate_service,
}
use k8s_operator_template.Platform.Requests.{
  Platform, Event, get_resource, patch_status, get_deployment, apply_configmap, apply_deployment,
  apply_service, publish,
}
use k8s_operator_template.Platform.Exec.{State, send, call}
use k8s_operator_template.Platform.Events.{Context, publish_normal_event, publish_warning_event}
use k8s_operator_template.Platform.Contracts.{
  Keeps, Does, Any, Does-pure, Does-raise, Does-bind, Does-send, Does-call, Does-timestamp,
}
use k8s_operator_template.Reconciler.Actions.{
  apply_params, forced_params, validate_spec, ready_count, create_owned_resources,
  check_ready_replicas, update_status,
}
use k8s_operator_template.Reconciler.Loop.{namespace_of, phase_of}
use k8s_operator_template.Reconciler.Moves.{Moves, IsLive, Applies, Allowed}

-- The operator's own check of a spec accepts exactly the replica counts within the bounds.
pub accepts_iff : (obj : MyResource) → IsOk (validate_spec obj) ↔ InBounds obj.spec.replicas
unfolding validate_spec
accepts_iff obj = ground arith

module _ {P : Platform} (ctx : Context) (obj : MyResource) {I : State P → Type 0}
    (keeps : Keeps (Allowed obj) I) where
  ready_count-Does : (r : Result Deployment KubeError) → Does I Any (ready_count r)
  ready_count-Does (ok d) = Does-pure Any _ tt
  ready_count-Does (err (api s)) = elim (Bool-cases (P.status_not_found s)) [
    | inl gone ↦ rw gone (Does-pure Any _ tt)
    | inr there ↦ rw there (Does-raise Any _)
  ]
  ready_count-Does (err (service t)) = Does-raise Any _
  ready_count-Does (err (other t)) = Does-raise Any _

  module _ (alive : IsLive obj) where
    pub check-Does : Does I Any (check_ready_replicas obj (namespace_of obj))
    unfolding check_ready_replicas
    check-Does =
        let q = get_deployment (namespace_of obj) obj.metadata.name_any in
        Does-bind Any Any _ _ (Does-send keeps q ((refl, refl), alive)) λ r _. ready_count-Does r

    publish-Does : (e : Event) → Does I Any (send (publish ctx.reporter e obj))
    publish-Does e = Does-send keeps (publish ctx.reporter e obj) (refl, alive)

    pub normal-Does :
        (reason action : String) (text : Option String)
        → Does I Any (publish_normal_event ctx obj reason action text)
    unfolding publish_normal_event
    normal-Does reason action text =
        Does-bind Any Any _ _ (publish-Does _) (λ r _. Does-pure Any _ tt)

    pub warning-Does :
        (reason action : String) (text : Option String)
        → Does I Any (publish_warning_event ctx obj reason action text)
    unfolding publish_warning_event
    warning-Does reason action text =
        Does-bind Any Any _ _ (publish-Does _) (λ r _. Does-pure Any _ tt)

    pub create-Does : Applies obj → Does I Any (create_owned_resources obj (namespace_of obj))
    unfolding create_owned_resources
    create-Does may =
        let namespace = namespace_of obj in
        let name = obj.metadata.name_any in
        let maps = apply_configmap namespace name forced_params (generate_configmap obj) in
        let deploys = apply_deployment namespace name forced_params (generate_deployment obj) in
        let serves = apply_service namespace name forced_params (generate_service obj) in
        Does-bind Any Any _ _ (Does-call keeps maps ((refl, refl), alive, refl, refl, may)) λ _ _.
          Does-bind Any Any _ _ (Does-call keeps deploys ((refl, refl), alive, refl, refl, may))
            λ _ _. Does-call keeps serves ((refl, refl), alive, refl, refl, may)

    status-Does :
        (status : MyResourceStatus)
        → Moves obj (phase_of obj.status) status.phase
        → Does I Any
            (call (patch_status (namespace_of obj) obj.metadata.name_any apply_params status))
    status-Does status moves =
        Does-call keeps (patch_status (namespace_of obj) obj.metadata.name_any apply_params status)
          ((refl, refl), alive, refl, moves)

    pub update-Does :
        (q : Phase) (ready : ℤ) (message : Option String)
        → Moves obj (phase_of obj.status) q
        → Does I Any (update_status (namespace_of obj) obj.metadata.name_any q ready message)
    unfolding update_status
    update-Does q ready message moves =
        let read = get_resource (namespace_of obj) obj.metadata.name_any in
        Does-bind Any Any _ _ (Does-call keeps read ((refl, refl), alive))
          λ current _. Does-bind Any Any _ _ (Does-timestamp keeps) λ now _. status-Does _ moves
