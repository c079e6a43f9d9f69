-- ===== src/Cluster/Store.antt =====
-- The resource that the API server stores, and what the requests of the operator do to it. A
-- request may fail, before or after it takes effect.
use k8s_operator_template.Prelude.{
  String, true, false, ◌≡◌, ◌⊎◌, Option, none, some, is_some, List, [], ◌∷◌,
}
use k8s_operator_template.Prelude.Json.{text, null, array, nil, cons}
use k8s_operator_template.Crd.{MyResource, MyResourceStatus}
use k8s_operator_template.Platform.Requests.{
  Platform, PatchParams, Request, merge_patch, patch_status,
}
use k8s_operator_template.Reconciler.Loop.{namespace_of}
use k8s_operator_template.Reconciler.Actions.{finalizer, finalizers_patch}

abbrev pub with_finalizers : MyResource → List String → MyResource
with_finalizers o fs = record o { metadata = record o.metadata { finalizers = fs } }

abbrev pub with_status : MyResource → MyResourceStatus → MyResource
with_status o status = record o { status = some status }

-- The requests that do not write the resource `name` in `namespace`.
abbrev pub IsElsewhere : String → String → Request → Type 0
IsElsewhere namespace name (merge_patch ns n params patch) = ¬ ((ns ≡ namespace) × (n ≡ name))
IsElsewhere namespace name (patch_status ns n params status) = ¬ ((ns ≡ namespace) × (n ≡ name))
IsElsewhere namespace name _ = Unit

-- The documented behaviour of the API server for the resource `name` in `namespace`: a status patch
-- replaces the status alone, a merge patch of the finalizers replaces their list, with null for the
-- empty one, and a deleted resource without finalizers is removed. Nothing else here writes it.
pub record IsStore (P : Platform) (namespace name : String) (stored : P.World → Option MyResource)
    : Type 0 where
  pub named :
      (w : P.World) (o : MyResource)
      → stored w ≡ some o
      → (namespace_of o ≡ namespace) × (o.metadata.name_any ≡ name)
  pub elsewhere :
      (q : Request) (w : P.World)
      → IsElsewhere namespace name q
      → stored (P.perform q w).1 ≡ stored w
  pub now_keeps : (w : P.World) → stored (P.now w).1 ≡ stored w
  pub timer_keeps : (w : P.World) → stored (P.start_timer w).1 ≡ stored w
  pub elapsed_keeps : (t : P.Instant) (w : P.World) → stored (P.elapsed t w).1 ≡ stored w
  pub writes_status :
      (w : P.World) (params : PatchParams) (status : MyResourceStatus) (o : MyResource)
      → stored w ≡ some o
      → (stored (P.perform (patch_status namespace name params status) w).1 ≡ some o)
        ⊎ (stored (P.perform (patch_status namespace name params status) w).1
            ≡ some (with_status o status))
  pub claims :
      (w : P.World) (params : PatchParams) (o : MyResource)
      → stored w ≡ some o
      → (stored
            (P.perform
              (merge_patch namespace name params
                (finalizers_patch (array (cons (text finalizer) nil))))
              w).1
          ≡ some o)
        ⊎ (stored
              (P.perform
                (merge_patch namespace name params
                  (finalizers_patch (array (cons (text finalizer) nil))))
                w).1
            ≡ some (with_finalizers o (finalizer ∷ [])))
  pub releases :
      (w : P.World) (params : PatchParams) (o : MyResource)
      → stored w ≡ some o
      → is_some o.metadata.deletion_timestamp ≡ true
      → (stored (P.perform (merge_patch namespace name params (finalizers_patch null)) w).1
          ≡ some o)
        ⊎ (stored (P.perform (merge_patch namespace name params (finalizers_patch null)) w).1
            ≡ none)
  pub clears :
      (w : P.World) (params : PatchParams) (o : MyResource)
      → stored w ≡ some o
      → is_some o.metadata.deletion_timestamp ≡ false
      → (stored (P.perform (merge_patch namespace name params (finalizers_patch null)) w).1
          ≡ some o)
        ⊎ (stored (P.perform (merge_patch namespace name params (finalizers_patch null)) w).1
            ≡ some (with_finalizers o []))
  pub stays_removed :
      (q : Request) (w : P.World) → stored w ≡ none → stored (P.perform q w).1 ≡ none
