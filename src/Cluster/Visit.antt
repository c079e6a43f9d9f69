-- ===== src/Cluster/Visit.antt =====
-- What a visit of src/controller/reconciler.rs leaves stored, whatever fails on the way.
use k8s_operator_template.Prelude.{
  String, true, false, ◌≡◌, refl, sym, ◌∙◌, inl, inr, Option, none, some, is_some, List, [], ◌∷◌,
}
use k8s_operator_template.Prelude.Json.{Json, text, null, array, nil, cons}
use k8s_operator_template.Crd.{MyResource, MyResourceStatus}
use k8s_operator_template.Platform.Requests.{
  Platform, PatchParams, Request, merge_patch, patch_status,
}
use k8s_operator_template.Platform.Exec.{State}
use k8s_operator_template.Platform.Events.{Context}
use k8s_operator_template.Platform.Contracts.{Keeps}
use k8s_operator_template.Reconciler.Actions.{finalizer, finalizers_patch}
use k8s_operator_template.Reconciler.Loop.{has_finalizer, namespace_of, phase_of, reconcile}
use k8s_operator_template.Reconciler.Moves.{Moves, IsLive, Allowed, Patches, release, claim}
use k8s_operator_template.Reconciler.Footprint.{reconcile-Does}
use k8s_operator_template.Cluster.Store.{IsStore, IsElsewhere, with_finalizers}

-- The finalizers after a visit: the same, or the operator's alone on a resource that it had not
-- claimed and that is not deleted.
pub data Claims (obj : MyResource) : List String → Type 0 where
  same : {fs : List String} → fs ≡ obj.metadata.finalizers → Claims obj fs
  claimed :
      {fs : List String}
      → is_some obj.metadata.deletion_timestamp ≡ false
      → has_finalizer obj.metadata.finalizers ≡ false
      → fs ≡ finalizer ∷ []
      → Claims obj fs

-- The status after a visit: the same, or one with a phase that `Moves` gives, on a live resource.
pub data Records (obj : MyResource) : Option MyResourceStatus → Type 0 where
  same : {status : Option MyResourceStatus} → status ≡ obj.status → Records obj status
  moved :
      {status : Option MyResourceStatus}
      → IsLive obj
      → (st : MyResourceStatus) → status ≡ some st
      → Moves obj (phase_of obj.status) st.phase
      → Records obj status

-- What a visit to `obj` may leave stored in its place.
pub data Leaves (obj : MyResource) : Option MyResource → Type 0 where
  removed :
      {o : Option MyResource}
      → is_some obj.metadata.deletion_timestamp ≡ true
      → o ≡ none
      → Leaves obj o
  kept :
      {o : Option MyResource} (fs : List String) (status : Option MyResourceStatus)
      → o ≡ some (record (with_finalizers obj fs) { status = status })
      → Claims obj fs
      → Records obj status
      → Leaves obj o

module _ {P : Platform} (obj : MyResource) (stored : P.World → Option MyResource)
    (store : IsStore P (namespace_of obj) obj.metadata.name_any stored) where
  -- What is stored does not change.
  same_store :
      (w w' : P.World) → stored w' ≡ stored w → Leaves obj (stored w) → Leaves obj (stored w')
  same_store w w' e h = rw e h

  status_written :
      (w : P.World) (params : PatchParams) (st : MyResourceStatus)
      → IsLive obj
      → Moves obj (phase_of obj.status) st.phase
      → Leaves obj (stored w)
      → Leaves obj
          (stored (P.perform (patch_status (namespace_of obj) obj.metadata.name_any params st) w).1)
  status_written w params st alive moves (removed gone e) = removed gone (store.stays_removed _ w e)
  status_written w params st alive moves (kept fs status e claims records) =
      elim (store.writes_status w params st _ e) [
        | inl before ↦ kept fs status before claims records
        | inr after ↦ kept fs (some st) after claims (Records.moved alive st refl moves)
      ]

  claim_written :
      (w : P.World) (params : PatchParams)
      → is_some obj.metadata.deletion_timestamp ≡ false
      → has_finalizer obj.metadata.finalizers ≡ false
      → Leaves obj (stored w)
      → Leaves obj (
          stored
            (P.perform
              (merge_patch
                (namespace_of obj)
                obj.metadata.name_any
                params
                (finalizers_patch (array (cons (text finalizer) nil))))
              w).1)
  claim_written w params here foreign (removed gone e) = removed gone (store.stays_removed _ w e)
  claim_written w params here foreign (kept fs status e claims records) =
      elim (store.claims w params _ e) [
        | inl before ↦ kept fs status before claims records
        | inr after ↦ kept (finalizer ∷ []) status after (claimed here foreign refl) records
      ]

  release_written :
      (w : P.World) (params : PatchParams)
      → is_some obj.metadata.deletion_timestamp ≡ true
      → Leaves obj (stored w)
      → Leaves obj (
          stored
            (P.perform
              (merge_patch (namespace_of obj) obj.metadata.name_any params (finalizers_patch null))
              w).1)
  release_written w params going (removed gone e) = removed gone (store.stays_removed _ w e)
  release_written w params going (kept fs status e claims records) =
      elim (store.releases w params _ e going) [
        | inl before ↦ kept fs status before claims records
        | inr after ↦ removed going after
      ]

  patch_written :
      (w : P.World) (params : PatchParams) (patch : Json)
      → Patches obj patch
      → Leaves obj (stored w)
      → Leaves obj (
          stored
            (P.perform (merge_patch (namespace_of obj) obj.metadata.name_any params patch) w).1)
  patch_written w params patch (release going e) h = rw e (release_written w params going h)
  patch_written w params patch (claim here foreign e) h =
      rw e (claim_written w params here foreign h)

  request_Leaves :
      (q : Request) (s : State P)
      → Allowed obj q
      → Leaves obj (stored s.world)
      → Leaves obj (stored (P.perform q s.world).1)
  request_Leaves (patch_status namespace name params st) s may h =
      rw (may.0.0, may.0.1) (status_written s.world params st may.1 may.3 h)
  request_Leaves (merge_patch namespace name params patch) s may h =
      rw (may.0.0, may.0.1) (patch_written s.world params patch may.1 h)
  request_Leaves q s may h = same_store _ _ (store.elsewhere q s.world tt) h

  store-Keeps : Keeps (Allowed obj) (λ (s : State P). Leaves obj (stored s.world))
  store-Keeps = record {
    on_send = λ q s may h. request_Leaves q s may h;
    on_now = λ s h. same_store _ _ (store.now_keeps s.world) h;
    on_start_timer = λ s h. same_store _ _ (store.timer_keeps s.world) h;
    on_elapsed = λ t s h. same_store _ _ (store.elapsed_keeps t s.world) h;
    on_health = λ f s h. h;
  }

  reconcile-Leaves :
      (ctx : Context) (s : State P)
      → stored s.world ≡ some obj
      → Leaves obj (stored (reconcile ctx obj s).1.world)
  reconcile-Leaves ctx s at =
      ((reconcile-Does ctx obj store-Keeps).at s
        (kept obj.metadata.finalizers obj.status at (Claims.same refl) (Records.same refl))).0

-- Whatever requests fail, and whether or not a failed one took effect, a visit to the stored
-- resource leaves it with the same spec and metadata but for the finalizers: those are the same, or
-- the operator's alone where it had not claimed the resource; its status is the same, or has a
-- phase that `Moves` gives from the one before, on a live resource; and it is removed only if it
-- was deleted.
pub visit-Leaves :
    {P : Platform} (namespace name : String) (stored : P.World → Option MyResource) (ctx : Context)
    (obj : MyResource) (s : State P)
    → IsStore P namespace name stored
    → stored s.world ≡ some obj
    → Leaves obj (stored (reconcile ctx obj s).1.world)
visit-Leaves namespace name stored ctx obj s store at =
    let (here, called) = store.named s.world obj at in
    reconcile-Leaves obj stored (rw (here, called) store) ctx s at

module _ {P : Platform} (namespace name : String) (stored : P.World → Option MyResource)
    (store : IsStore P namespace name stored) (obj : MyResource)
    (apart : ¬ ((namespace_of obj ≡ namespace) × (obj.metadata.name_any ≡ name))) where
  own_elsewhere :
      (ns n : String)
      → (ns ≡ namespace_of obj) × (n ≡ obj.metadata.name_any)
      → ¬ ((ns ≡ namespace) × (n ≡ name))
  own_elsewhere ns n own h = apart (sym (own.0) ∙ h.0, sym (own.1) ∙ h.1)

  request-IsElsewhere : (q : Request) → Allowed obj q → IsElsewhere namespace name q
  request-IsElsewhere (merge_patch ns n params patch) may = own_elsewhere ns n (may.0)
  request-IsElsewhere (patch_status ns n params status) may = own_elsewhere ns n (may.0)
  request-IsElsewhere q may = tt

  others-Keeps :
      (before : Option MyResource) → Keeps (Allowed obj) (λ (s : State P). stored s.world ≡ before)
  others-Keeps before = record {
    on_send = λ q s may h. store.elsewhere q s.world (request-IsElsewhere q may) ∙ h;
    on_now = λ s h. store.now_keeps s.world ∙ h;
    on_start_timer = λ s h. store.timer_keeps s.world ∙ h;
    on_elapsed = λ t s h. store.elapsed_keeps t s.world ∙ h;
    on_health = λ f s h. h;
  }

  -- A visit to one resource, whatever fails, leaves another one as it is stored.
  pub visit-keeps_other :
      (ctx : Context) (s : State P) → stored (reconcile ctx obj s).1.world ≡ stored s.world
  visit-keeps_other ctx s = ((reconcile-Does ctx obj (others-Keeps (stored s.world))).at s refl).0
