-- ===== src/Tests/Crowds.antt =====
-- An API server where a user changes the spec while the operator reads the resource, and the
-- theorems on it.
use k8s_operator_template.Prelude.{
  pos, String, Bool, Option, none, some, is_some, [], ◌∷◌, ◌==◌, str_eq, if◌then◌else◌, ◌&&◌,
}
use k8s_operator_template.Prelude.Json.{Json, null, text, array, object, nil, cons, end, field}
use k8s_operator_template.Prelude.Result.{Result, ok}
use k8s_operator_template.Crd.{MyResource}
use k8s_operator_template.Errors.{KubeError}
use k8s_operator_template.Platform.Requests.{
  Platform, Request, Answer, get_resource, merge_patch, patch_status, get_deployment,
  apply_configmap, apply_deployment, apply_service, publish,
}
use k8s_operator_template.Platform.Exec.{State}
use k8s_operator_template.Reconciler.Actions.{finalizer}
use k8s_operator_template.Reconciler.Loop.{reconcile}
use k8s_operator_template.Cluster.Store.{with_finalizers, with_status}
use k8s_operator_template.Tests.Sample.{fresh, going}
use k8s_operator_template.Tests.Platforms.{families, deployment_with, controller}

-- The spec gets three replicas and a new generation.
abbrev revised : MyResource → MyResource
revised o = record o {
  spec = record o.spec { replicas = pos 3 };
  metadata = record o.metadata { generation = some (pos 7) };
}

abbrev cleared : Bool → MyResource → Option MyResource
cleared gone o = if gone then none else some (with_finalizers o [])

abbrev patched_as : Json → MyResource → Option MyResource
patched_as (object (field _ (object (field _ (array (cons (text f) nil)) end)) end)) o =
    some (with_finalizers o (finalizer ∷ []))
patched_as (object (field _ (object (field _ null end)) end)) o =
    cleared (is_some o.metadata.deletion_timestamp) o
patched_as _ o = some o

abbrev is_demo : String → String → Bool
is_demo namespace name = str_eq namespace "apps" && str_eq name "demo"

-- The resource after a request.
abbrev after : Request → Option MyResource → Option MyResource
after q none = none
after (get_resource _ _) (some o) = some (revised o)
after (merge_patch ns n _ patch) (some o) = if is_demo ns n then patched_as patch o else some o
after (patch_status ns n _ status) (some o) =
    if is_demo ns n then some (with_status o status) else some o
after q x = x

abbrev reply : (q : Request) → Result (Answer q) KubeError
reply (get_resource _ _) = ok (fresh (pos 3))
reply (merge_patch _ _ _ _) = ok tt
reply (patch_status _ _ _ _) = ok tt
reply (get_deployment _ _) = ok (deployment_with (pos 3))
reply (apply_configmap _ _ _ _) = ok tt
reply (apply_deployment _ _ _ _) = ok tt
reply (apply_service _ _ _ _) = ok tt
reply (publish _ _ _) = ok tt

abbrev crowd : Platform
crowd = record {
  World = Option MyResource;
  perform = λ q w. (reply q, after q w);
  status_not_found = λ s. s.code == 404;
  show_kube = λ e. "kube";
  now = λ w. ("2025-01-01T00:00:00Z", w);
  prometheus = families;
  Instant = Unit;
  start_timer = λ w. (tt, w);
  elapsed = λ t w. (1, w);
}

abbrev crowd_state : State crowd
crowd_state = record { world = some (fresh (pos 2)); log = []; health = none }

-- A visit, and then one that sees a deleted resource of the same name.
abbrev twice : State crowd
twice = (reconcile controller going (reconcile controller (fresh (pos 2)) crowd_state).1).1
