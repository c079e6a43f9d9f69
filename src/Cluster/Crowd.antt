-- ===== src/Cluster/Crowd.antt =====
-- A cluster where others act at any time, also between two requests of a visit of
-- src/controller/reconciler.rs and while a request is on its way.
pub mod Hold
use k8s_operator_template.Prelude.{
  String, true, false, ◌≡◌, ◌⊎◌, Option, none, some, is_some, List, [], ◌∷◌,
}
use k8s_operator_template.Prelude.Json.{text, null, array, nil, cons}
use k8s_operator_template.Crd.{MyResource, MyResourceStatus}
use k8s_operator_template.Errors.{Error}
use k8s_operator_template.Platform.Requests.{
  Platform, PatchParams, Request, merge_patch, patch_status,
}
use k8s_operator_template.Platform.Exec.{State}
use k8s_operator_template.Platform.Events.{Context}
use k8s_operator_template.Reconciler.Actions.{finalizer, finalizers_patch}
use k8s_operator_template.Reconciler.Loop.{has_finalizer, reconcile, error_policy}
use k8s_operator_template.Cluster.Store.{with_finalizers, with_status}
use k8s_operator_template.Cluster.System.{IsNew, Edits, marked, at_world}

-- What users do to the stored resource. They may change its finalizers, but leave the operator's
-- there. A deletion removes a resource without finalizers at once.
pub data Act : Option MyResource → Option MyResource → Type 0 where
  creates : (o : MyResource) → IsNew o → Act none (some o)
  edits : (o o' : MyResource) → Edits o o' → Act (some o) (some o')
  refinalizes :
      (o : MyResource) (fs : List String)
      → (has_finalizer o.metadata.finalizers ≡ true → has_finalizer fs ≡ true)
      → Act (some o) (some (with_finalizers o fs))
  deletes : (o : MyResource) (time : String) → Act (some o) (some (marked o time))
  removes : (o : MyResource) → o.metadata.finalizers ≡ [] → Act (some o) none

pub data Acts : Option MyResource → Option MyResource → Type 0 where
  rest : {x : Option MyResource} → Acts x x
  next : {x y z : Option MyResource} → Acts x y → Act y z → Acts x z

-- What a request does to the resource `name` in `namespace` at the moment when it takes effect; one
-- that fails may have none.
pub data Effect (namespace name : String)
    : Request → Option MyResource → Option MyResource → Type 0 where
  idle : {q : Request} {x : Option MyResource} → Effect namespace name q x x
  writes :
      {params : PatchParams} {status : MyResourceStatus} (o : MyResource)
      → Effect namespace name
          (patch_status namespace name params status)
          (some o)
          (some (with_status o status))
  claims :
      {params : PatchParams} (o : MyResource)
      → Effect namespace name
          (merge_patch namespace name params (finalizers_patch (array (cons (text finalizer) nil))))
          (some o)
          (some (with_finalizers o (finalizer ∷ [])))
  releases :
      {params : PatchParams} (o : MyResource)
      → is_some o.metadata.deletion_timestamp ≡ true
      → Effect namespace name
          (merge_patch namespace name params (finalizers_patch null))
          (some o)
          none
  clears :
      {params : PatchParams} (o : MyResource)
      → is_some o.metadata.deletion_timestamp ≡ false
      → Effect namespace name
          (merge_patch namespace name params (finalizers_patch null))
          (some o)
          (some (with_finalizers o []))

-- The merge patches are those of the finalizers.
abbrev pub IsKnown : Request → Type 0
IsKnown (merge_patch namespace name params patch) =
    (patch ≡ finalizers_patch null) ⊎ (patch ≡ finalizers_patch (array (cons (text finalizer) nil)))
IsKnown _ = Unit

-- Others act, the request takes effect, and others act again.
pub record Meanwhile (namespace name : String) (q : Request) (x z : Option MyResource)
    : Type 0 where
  pub before : Option MyResource
  pub after : Option MyResource
  pub acts_before : Acts x before
  pub effect : Effect namespace name q before after
  pub acts_after : Acts after z

-- The documented behaviour of the API server for one resource that others use too.
pub record IsShared (P : Platform) (namespace name : String) (stored : P.World → Option MyResource)
    : Type 0 where
  pub requests :
      (q : Request) (w : P.World)
      → IsKnown q
      → Meanwhile namespace name q (stored w) (stored (P.perform q w).1)
  pub now_acts : (w : P.World) → Acts (stored w) (stored (P.now w).1)
  pub timer_acts : (w : P.World) → Acts (stored w) (stored (P.start_timer w).1)
  pub elapsed_acts : (t : P.Instant) (w : P.World) → Acts (stored w) (stored (P.elapsed t w).1)

-- Visits, called with any object of any name, answers to errors, and acts of others.
pub data Play {P : Platform} (ctx : Context) (stored : P.World → Option MyResource) (s : State P)
    : State P → Type 0 where
  start : Play ctx stored s s
  visit :
      {t : State P} (obj : MyResource)
      → Play ctx stored s t
      → Play ctx stored s (reconcile ctx obj t).1
  answer :
      {t : State P} (obj : MyResource) (e : Error)
      → Play ctx stored s t
      → Play ctx stored s (error_policy ctx obj e t).1
  others :
      {t : State P} (w : P.World)
      → Acts (stored t.world) (stored w)
      → Play ctx stored s t
      → Play ctx stored s (at_world t w)
