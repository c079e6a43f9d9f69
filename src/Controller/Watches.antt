-- ===== src/Controller/Watches.antt =====
-- The watches of src/lib.rs beside the objects that the reconciler applies.
use k8s_operator_template.Prelude.{
  String, Bool, true, false, ◌≡◌, refl, ◌||◌, ◌&&◌, Option, none, some, List, [], ◌∷◌, str_eq,
  str_eq_iff, unwrap_or,
}
use k8s_operator_template.Crd.{MyResource}
use k8s_operator_template.Resources.Types.{GeneratedMeta, OwnerReference}
use k8s_operator_template.Resources.Generate.{
  owner_reference, generated_meta, generate_configmap, generate_deployment, generate_service,
}
use k8s_operator_template.Platform.Requests.{
  Platform, Request, get_deployment, apply_configmap, apply_deployment, apply_service, get_resource,
  merge_patch, patch_status, publish,
}
use k8s_operator_template.Platform.Exec.{State}
use k8s_operator_template.Platform.Contracts.{All, Keeps}
use k8s_operator_template.Platform.Events
use k8s_operator_template.Reconciler.Loop.{namespace_of, reconcile}
use k8s_operator_template.Reconciler.Moves.{Allowed}
use k8s_operator_template.Reconciler.Footprint.{reconcile-Does}
use k8s_operator_template.Controller.{
  Scope, everywhere, within, scoped_api, Kind, my_resource, deployment, service, config_map, Source,
  for_stream, owns, owns_stream, sources_in, run_controller_scoped,
}

abbrev covers : Scope → String → Bool
covers everywhere namespace = true
covers (within ns) namespace = str_eq ns namespace

abbrev same_kind : Kind → Kind → Bool
same_kind my_resource my_resource = true
same_kind deployment deployment = true
same_kind service service = true
same_kind config_map config_map = true
same_kind _ _ = false

-- Whether an object of the kind, in the namespace, is seen as owned.
abbrev owned_by : Source → Kind → String → Bool
owned_by (for_stream w) k namespace = false
owned_by (owns kind api config) k namespace = same_kind kind k && covers api namespace
owned_by (owns_stream w) k namespace = same_kind w.kind k && covers w.scope namespace

abbrev pub watches : List Source → Kind → String → Bool
watches [] k namespace = false
watches (source ∷ sources) k namespace = owned_by source k namespace || watches sources k namespace

-- The owner reference that leads kube's controller runtime from an object to the resource: its API
-- version and kind are those of MyResource, and it has the resource's name and uid. With
-- `controller` set, no other controller may own the object.
pub record Names (obj : MyResource) (owner : OwnerReference) : Type 0 where
  pub api : owner.api_version ≡ "myoperator.example.com/v1alpha1"
  pub kind : owner.kind ≡ "MyResource"
  pub name : owner.name ≡ obj.metadata.name_any
  pub uid : owner.uid ≡ unwrap_or obj.metadata.uid ""
  pub controller : owner.controller ≡ some true
  pub blocks : owner.block_owner_deletion ≡ some true

-- An object in the resource's namespace that names the resource as its only owner.
abbrev IsOwned : MyResource → GeneratedMeta → Type 0
IsOwned obj meta =
    (meta.namespace ≡ obj.metadata.namespace)
    × ((owner : OwnerReference) × (meta.owner_references ≡ some (owner ∷ [])) × Names obj owner)

-- The applied objects are the resource's, and they and the deployment that is read are watched.
abbrev pub LeadsBack : List Source → MyResource → Request → Type 0
LeadsBack sources obj (get_deployment namespace name) = watches sources deployment namespace ≡ true
LeadsBack sources obj (apply_configmap namespace name params made) =
    (watches sources config_map namespace ≡ true) × IsOwned obj made.metadata
LeadsBack sources obj (apply_deployment namespace name params made) =
    (watches sources deployment namespace ≡ true) × IsOwned obj made.metadata
LeadsBack sources obj (apply_service namespace name params made) =
    (watches sources service namespace ≡ true) × IsOwned obj made.metadata
LeadsBack sources obj _ = Unit

owner-Names : (obj : MyResource) → Names obj (owner_reference obj)
unfolding owner_reference
owner-Names obj = record {
  api = refl;
  kind = refl;
  name = refl;
  uid = refl;
  controller = refl;
  blocks = refl;
}

generated-IsOwned : (obj : MyResource) → IsOwned obj (generated_meta obj)
unfolding generated_meta
generated-IsOwned obj = (refl, (owner_reference obj, refl, owner-Names obj))

-- The namespaces that a controller covers: all without one of its own.
abbrev pub InScope : Option String → String → Type 0
InScope none namespace = Unit
InScope (some ns) namespace = ns ≡ namespace

InScope-covers :
    (scope : Option String) (namespace : String)
    → InScope scope namespace
    → covers (scoped_api scope) namespace ≡ true
unfolding scoped_api
InScope-covers none namespace h = refl
InScope-covers (some ns) namespace h = (str_eq_iff ns namespace).1 h

owned_kinds :
    (api : Scope) (namespace : String)
    → covers api namespace ≡ true
    → (watches (sources_in api) deployment namespace ≡ true)
      × (watches (sources_in api) service namespace ≡ true)
      × (watches (sources_in api) config_map namespace ≡ true)
unfolding sources_in
owned_kinds api namespace h = rw h (refl, refl, refl)

Allowed-LeadsBack :
    (obj : MyResource) (api : Scope) (q : Request)
    → covers api (namespace_of obj) ≡ true
    → Allowed obj q
    → LeadsBack (sources_in api) obj q
unfolding generate_configmap generate_deployment generate_service
Allowed-LeadsBack obj api (get_deployment namespace name) seen may =
    rw (may.0.0) (owned_kinds api (namespace_of obj) seen).0
Allowed-LeadsBack obj api (apply_configmap namespace name params made) seen may =
    rw (may.0.0, may.3) ((owned_kinds api (namespace_of obj) seen).2, generated-IsOwned obj)
Allowed-LeadsBack obj api (apply_deployment namespace name params made) seen may =
    rw (may.0.0, may.3) ((owned_kinds api (namespace_of obj) seen).0, generated-IsOwned obj)
Allowed-LeadsBack obj api (apply_service namespace name params made) seen may =
    rw (may.0.0, may.3) ((owned_kinds api (namespace_of obj) seen).1, generated-IsOwned obj)
Allowed-LeadsBack obj api (get_resource _ _) seen may = tt
Allowed-LeadsBack obj api (merge_patch _ _ _ _) seen may = tt
Allowed-LeadsBack obj api (patch_status _ _ _ _) seen may = tt
Allowed-LeadsBack obj api (publish _ _ _) seen may = tt

LeadsBack-Keeps :
    {P : Platform} (obj : MyResource) (api : Scope)
    → covers api (namespace_of obj) ≡ true
    → Keeps {P = P} (Allowed obj) (λ s. All (LeadsBack (sources_in api) obj) s.log)
LeadsBack-Keeps obj api seen = record {
  on_send = λ q s may h. (Allowed-LeadsBack obj api q seen may, h);
  on_now = λ s h. h;
  on_start_timer = λ s h. h;
  on_elapsed = λ t s h. h;
  on_health = λ f s h. h;
}

-- Of the controller that `run_controller_scoped` sets up, for a resource within its scope: whatever
-- the platform answers, a visit adds only requests of which every applied object lies in the
-- resource's namespace, names the resource as its only owner (by API version, kind, name and
-- uid, as a controller that blocks its deletion), and is of a kind that the controller
-- watches there as owned; the deployment that is read is watched too.
pub reconcile-LeadsBack :
    {P : Platform} (pod_name scope : Option String) (obj : MyResource) (s : State P)
    → InScope scope (namespace_of obj)
    → let setup = run_controller_scoped P.prometheus pod_name s.health scope in
      All (LeadsBack setup.sources obj) s.log
      → All (LeadsBack setup.sources obj) (reconcile setup.context obj s).1.log
unfolding run_controller_scoped
reconcile-LeadsBack pod_name scope obj s within_scope h =
    ((reconcile-Does (Events.new pod_name) obj (
        LeadsBack-Keeps obj (scoped_api scope)
          (InScope-covers scope (namespace_of obj) within_scope))).at
      s h).0
