-- ===== src/Cluster/Touch.antt =====
-- What a visit of src/controller/reconciler.rs may leave stored when the object that it was called
-- with is not the stored one: an earlier state of it, or a deleted resource of the same name.
use k8s_operator_template.Prelude.{
  String, true, ◌≡◌, refl, ◌∙◌, ◌⊎◌, inl, inr, Option, none, some, is_some, List, [], ◌∷◌,
  Bool-cases,
}
use k8s_operator_template.Prelude.Json.{Json, text, null, array, nil, cons}
use k8s_operator_template.Crd.{MyResource, MyResourceStatus}
use k8s_operator_template.Platform.Requests.{
  Platform, PatchParams, Request, merge_patch, patch_status,
}
use k8s_operator_template.Platform.Exec.{State}
use k8s_operator_template.Platform.Events.{Context}
use k8s_operator_template.Platform.Contracts.{Keeps}
use k8s_operator_template.Reconciler.Actions.{finalizer, finalizers_patch}
use k8s_operator_template.Reconciler.Loop.{namespace_of, reconcile}
use k8s_operator_template.Reconciler.Moves.{Allowed, Patches, release, claim}
use k8s_operator_template.Reconciler.Footprint.{reconcile-Does}
use k8s_operator_template.Cluster.Store.{IsStore, with_finalizers}

-- The finalizers of `o`, or the operator's alone, or none.
abbrev IsTrace : MyResource → List String → Type 0
IsTrace o fs = (fs ≡ o.metadata.finalizers) ⊎ (fs ≡ finalizer ∷ []) ⊎ (fs ≡ [])

-- What may stand in the place of `o`: `o` with other finalizers and another status, or nothing if
-- `o` is being deleted.
pub data Touches (o : MyResource) : Option MyResource → Type 0 where
  gone :
      {x : Option MyResource}
      → is_some o.metadata.deletion_timestamp ≡ true
      → x ≡ none
      → Touches o x
  left :
      {x : Option MyResource} (fs : List String) (status : Option MyResourceStatus)
      → x ≡ some (record (with_finalizers o fs) { status = status })
      → IsTrace o fs
      → Touches o x

module _ {P : Platform} (namespace name : String) (stored : P.World → Option MyResource)
    (store : IsStore P namespace name stored) (o : MyResource) where
  abbrev Touched : P.World → Type 0
  Touched w = Touches o (stored w)

  status_touches :
      (w : P.World) (params : PatchParams) (st : MyResourceStatus)
      → Touched w
      → Touched (P.perform (patch_status namespace name params st) w).1
  status_touches w params st (gone d e) = gone d (store.stays_removed _ w e)
  status_touches w params st (left fs status e trace) = elim (store.writes_status w params st _ e) [
    | inl before ↦ left fs status before trace
    | inr after ↦ left fs (some st) after trace
  ]

  claim_touches :
      (w : P.World) (params : PatchParams)
      → Touched w
      → Touched
          (P.perform
            (merge_patch namespace name params
              (finalizers_patch (array (cons (text finalizer) nil))))
            w).1
  claim_touches w params (gone d e) = gone d (store.stays_removed _ w e)
  claim_touches w params (left fs status e trace) = elim (store.claims w params _ e) [
    | inl before ↦ left fs status before trace
    | inr after ↦ left (finalizer ∷ []) status after (inr (inl refl))
  ]

  release_touches :
      (w : P.World) (params : PatchParams)
      → Touched w
      → Touched (P.perform (merge_patch namespace name params (finalizers_patch null)) w).1
  release_touches w params (gone d e) = gone d (store.stays_removed _ w e)
  release_touches w params (left fs status e trace) =
      elim (Bool-cases (is_some o.metadata.deletion_timestamp)) [
        | inl d ↦ elim (store.releases w params _ e d) [
          | inl before ↦ left fs status before trace
          | inr after ↦ gone d after
        ]
        | inr here ↦ elim (store.clears w params _ e here) [
          | inl before ↦ left fs status before trace
          | inr after ↦ left [] status after (inr (inr refl))
        ]
      ]

  module _ (obj : MyResource)
      (same : (namespace_of obj ≡ namespace) × (obj.metadata.name_any ≡ name)) where
    patch_touches :
        (w : P.World) (params : PatchParams) (patch : Json)
        → Patches obj patch
        → Touched w
        → Touched (P.perform (merge_patch namespace name params patch) w).1
    patch_touches w params patch (release _ e) h = rw e (release_touches w params h)
    patch_touches w params patch (claim _ _ e) h = rw e (claim_touches w params h)

    request_touches :
        (q : Request) (w : P.World) → Allowed obj q → Touched w → Touched (P.perform q w).1
    request_touches (patch_status ns n params st) w may h =
        rw (may.0.0 ∙ same.0, may.0.1 ∙ same.1) (status_touches w params st h)
    request_touches (merge_patch ns n params patch) w may h =
        rw (may.0.0 ∙ same.0, may.0.1 ∙ same.1) (patch_touches w params patch (may.1) h)
    request_touches q w may h = rw (store.elsewhere q w tt) h

    touch-Keeps : Keeps (Allowed obj) (λ (s : State P). Touched s.world)
    touch-Keeps = record {
      on_send = λ q s may h. request_touches q s.world may h;
      on_now = λ s h. rw (store.now_keeps s.world) h;
      on_start_timer = λ s h. rw (store.timer_keeps s.world) h;
      on_elapsed = λ t s h. rw (store.elapsed_keeps t s.world) h;
      on_health = λ f s h. h;
    }

    -- A visit that is called with any object of the stored resource's name and namespace, however
    -- old, whatever fails, leaves the stored resource with its spec and its metadata but for the
    -- finalizers, which are the same, the operator's alone, or none; it removes it only if the
    -- stored resource is being deleted.
    pub visit-Touches :
        (ctx : Context) (s : State P)
        → stored s.world ≡ some o
        → Touches o (stored (reconcile ctx obj s).1.world)
    visit-Touches ctx s at =
        ((reconcile-Does ctx obj touch-Keeps).at s
          (left o.metadata.finalizers o.status at (inl refl))).0
