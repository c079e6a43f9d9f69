-- ===== src/Reconciler/Moves.antt =====
-- What src/controller/reconciler.rs may do to the cluster, stated without its code: the phase
-- changes that it may record, and the requests that it may send for a resource.
use k8s_operator_template.Prelude.{String, true, false, ◌≡◌, is_some}
use k8s_operator_template.Prelude.Json.{Json, text, null, array, nil, cons}
use k8s_operator_template.Crd.{
  MyResource, Phase, pending, creating, running, updating, degraded, failed, deleting,
}
use k8s_operator_template.Validation.Bounds.{InBounds}
use k8s_operator_template.Resources.Generate.{
  generate_configmap, generate_deployment, generate_service,
}
use k8s_operator_template.Platform.Requests.{
  Request, get_resource, merge_patch, patch_status, get_deployment, apply_configmap,
  apply_deployment, apply_service, publish,
}
use k8s_operator_template.Reconciler.Actions.{
  finalizer, apply_params, forced_params, finalizers_patch,
}
use k8s_operator_template.Reconciler.Loop.{has_finalizer, namespace_of, phase_of, spec_changed}

-- The phase changes, by the state of the spec.
pub data Moves (obj : MyResource) : Phase → Phase → Type 0 where
  accepted : InBounds obj.spec.replicas → Moves obj pending creating
  refused : ¬ InBounds obj.spec.replicas → Moves obj pending failed
  still_creating : Moves obj creating creating
  created : Moves obj creating running
  change : spec_changed obj ≡ true → Moves obj running updating
  still_running : spec_changed obj ≡ false → Moves obj running running
  lost : spec_changed obj ≡ false → Moves obj running degraded
  still_updating : Moves obj updating updating
  updated : Moves obj updating running
  still_degraded : Moves obj degraded degraded
  recovered : Moves obj degraded running
  given_up : Moves obj degraded failed
  still_failed : Moves obj failed failed
  still_deleting : Moves obj deleting deleting

-- A resource that is not being deleted and that the operator has claimed.
pub record IsLive (obj : MyResource) : Type 0 where
  pub kept : is_some obj.metadata.deletion_timestamp ≡ false
  pub claimed : has_finalizer obj.metadata.finalizers ≡ true

-- The phases in which the owned objects are applied; in Running only while the spec is unchanged.
pub data Applies (obj : MyResource) : Type 0 where
  while_creating : phase_of obj.status ≡ creating → Applies obj
  while_updating : phase_of obj.status ≡ updating → Applies obj
  while_running : phase_of obj.status ≡ running → spec_changed obj ≡ false → Applies obj

-- The finalizer patches: the finalizer goes when the resource is deleted, and comes when it is not
-- there.
pub data Patches (obj : MyResource) : Json → Type 0 where
  release :
      {j : Json}
      → is_some obj.metadata.deletion_timestamp ≡ true
      → j ≡ finalizers_patch null
      → Patches obj j
  claim :
      {j : Json}
      → is_some obj.metadata.deletion_timestamp ≡ false
      → has_finalizer obj.metadata.finalizers ≡ false
      → j ≡ finalizers_patch (array (cons (text finalizer) nil))
      → Patches obj j

abbrev pub IsOwn : MyResource → String → String → Type 0
IsOwn obj namespace name = (namespace ≡ namespace_of obj) × (name ≡ obj.metadata.name_any)

-- The requests that a reconciliation of `obj` may send.
abbrev pub Allowed : MyResource → Request → Type 0
Allowed obj (get_resource namespace name) = IsOwn obj namespace name × IsLive obj
Allowed obj (get_deployment namespace name) = IsOwn obj namespace name × IsLive obj
Allowed obj (merge_patch namespace name params patch) = IsOwn obj namespace name × Patches obj patch
Allowed obj (patch_status namespace name params status) =
    IsOwn obj namespace name
    × IsLive obj
    × (params ≡ apply_params)
    × Moves obj (phase_of obj.status) status.phase
Allowed obj (apply_configmap namespace name params made) =
    IsOwn obj namespace name
    × IsLive obj
    × (params ≡ forced_params)
    × (made ≡ generate_configmap obj)
    × Applies obj
Allowed obj (apply_deployment namespace name params made) =
    IsOwn obj namespace name
    × IsLive obj
    × (params ≡ forced_params)
    × (made ≡ generate_deployment obj)
    × Applies obj
Allowed obj (apply_service namespace name params made) =
    IsOwn obj namespace name
    × IsLive obj
    × (params ≡ forced_params)
    × (made ≡ generate_service obj)
    × Applies obj
Allowed obj (publish reporter event about) = (about ≡ obj) × IsLive obj
