-- ===== src/Tests/Server.antt =====
-- An API server that runs: it stores one resource, and carries every request for it out.
use k8s_operator_template.Prelude.{
  pos, String, true, ◌≡◌, refl, sym, ap, ◌∙◌, inr, Option, none, some, is_some, [], ◌∷◌, ◌==◌, ◌&&◌,
  Bool, false, str_eq, str_eq_iff, arith, if◌then◌else◌,
}
use k8s_operator_template.Prelude.Json.{Json, null, text, array, object, nil, cons, end, field}
use k8s_operator_template.Prelude.Result.{Result, ok, err}
use k8s_operator_template.Crd.{MyResource, MyResourceStatus}
use k8s_operator_template.Errors.{KubeError, ErrorStatus}
use k8s_operator_template.Errors
use k8s_operator_template.Platform.Requests.{
  Platform, PatchParams, Request, Answer, get_resource, merge_patch, patch_status, get_deployment,
  apply_configmap, apply_deployment, apply_service, publish,
}
use k8s_operator_template.Reconciler.Actions.{finalizers_patch, finalizer}
use k8s_operator_template.Reconciler.Loop.{namespace_of}
use k8s_operator_template.Cluster.Store.{IsStore, IsElsewhere, with_finalizers, with_status}
use k8s_operator_template.Tests.Platforms.{families, deployment_with}

-- The API server stores resources under their name and namespace.
abbrev called_demo : MyResource → MyResource
called_demo o = record o {
  metadata = record o.metadata { name_any = "demo"; namespace = some "apps" };
}

abbrev pub stored_demo : Option MyResource → Option MyResource
stored_demo none = none
stored_demo (some o) = some (called_demo o)

-- The list of finalizers becomes empty.
abbrev released : Option String → MyResource → Option MyResource
released none o = some (with_finalizers o [])
released (some time) o = none

abbrev patched_with : Json → MyResource → Option MyResource
patched_with (object (field _ (object (field _ (array (cons (text f) nil)) end)) end)) o =
    some (with_finalizers o (f ∷ []))
patched_with (object (field _ (object (field _ null end)) end)) o =
    released o.metadata.deletion_timestamp o
patched_with _ o = some o

abbrev missing : {A : Type 0} → Result A KubeError
missing = err (Errors.api (record { code = 404; reason = "NotFound"; message = "no demo" }))

abbrev is_demo : String → String → Bool
is_demo namespace name = str_eq namespace "apps" && str_eq name "demo"

abbrev pub serve :
    (q : Request) → Option MyResource → Result (Answer q) KubeError × Option MyResource
serve (get_resource _ _) none = (missing, none)
serve (get_resource _ _) (some o) = (ok (called_demo o), some o)
serve (merge_patch ns n _ _) none = (missing, none)
serve (merge_patch ns n _ patch) (some o) =
    if is_demo ns n then (ok tt, patched_with patch o) else (missing, some o)
serve (patch_status ns n _ _) none = (missing, none)
serve (patch_status ns n _ status) (some o) =
    if is_demo ns n then (ok tt, some (with_status o status)) else (missing, some o)
serve (get_deployment _ _) w = (ok (deployment_with (pos 3)), w)
serve (apply_configmap _ _ _ _) w = (ok tt, w)
serve (apply_deployment _ _ _ _) w = (ok tt, w)
serve (apply_service _ _ _ _) w = (ok tt, w)
serve (publish _ _ _) w = (ok tt, w)

abbrev pub server : Platform
server = record {
  World = Option MyResource;
  perform = serve;
  status_not_found = λ s. s.code == 404;
  show_kube = λ e. "kube";
  now = λ w. ("2025-01-01T00:00:00Z", w);
  prometheus = families;
  Instant = Unit;
  start_timer = λ w. (tt, w);
  elapsed = λ t w. (1, w);
}

stored_value : (x o : MyResource) → stored_demo (some x) ≡ some o → called_demo x ≡ o
stored_value x o h = cc

demo_named :
    (w : Option MyResource) (o : MyResource)
    → stored_demo w ≡ some o
    → (namespace_of o ≡ "apps") × (o.metadata.name_any ≡ "demo")
demo_named none o h = cc
demo_named (some x) o h =
    let e = sym (stored_value x o h) in
    (ap namespace_of e, ap (λ (r : MyResource). r.metadata.name_any) e)

not_demo : (ns n : String) → ¬ ((ns ≡ "apps") × (n ≡ "demo")) → is_demo ns n ≡ false
not_demo ns n h = ground (arith, str_eq_iff ns "apps", str_eq_iff n "demo")

demo_elsewhere :
    (q : Request) (w : Option MyResource)
    → IsElsewhere "apps" "demo" q
    → stored_demo (serve q w).1 ≡ stored_demo w
demo_elsewhere (get_resource _ _) none h = refl
demo_elsewhere (get_resource _ _) (some o) h = refl
demo_elsewhere (merge_patch ns n _ _) none h = refl
demo_elsewhere (merge_patch ns n _ _) (some o) h = rw (not_demo ns n h) refl
demo_elsewhere (patch_status ns n _ _) none h = refl
demo_elsewhere (patch_status ns n _ _) (some o) h = rw (not_demo ns n h) refl
demo_elsewhere (get_deployment _ _) w h = refl
demo_elsewhere (apply_configmap _ _ _ _) w h = refl
demo_elsewhere (apply_deployment _ _ _ _) w h = refl
demo_elsewhere (apply_service _ _ _ _) w h = refl
demo_elsewhere (publish _ _ _) w h = refl

demo_written :
    (w : Option MyResource) (params : PatchParams) (status : MyResourceStatus) (o : MyResource)
    → stored_demo w ≡ some o
    → stored_demo (serve (patch_status "apps" "demo" params status) w).1
      ≡ some (with_status o status)
demo_written none params status o h = cc
demo_written (some x) params status o h = ap (λ r. some (with_status r status)) (stored_value x o h)

demo_claimed :
    (w : Option MyResource) (params : PatchParams) (o : MyResource)
    → stored_demo w ≡ some o
    → stored_demo
        (serve
          (merge_patch "apps" "demo" params (finalizers_patch (array (cons (text finalizer) nil))))
          w).1
      ≡ some (with_finalizers o (finalizer ∷ []))
demo_claimed none params o h = cc
demo_claimed (some x) params o h =
    ap (λ r. some (with_finalizers r (finalizer ∷ []))) (stored_value x o h)

here_released :
    (deletion : Option String) (o : MyResource)
    → is_some deletion ≡ false
    → released deletion o ≡ some (with_finalizers o [])
here_released none o h = refl
here_released (some t) o h = cc

gone_released :
    (deletion : Option String) (o : MyResource)
    → is_some deletion ≡ true
    → released deletion o ≡ none
gone_released none o h = cc
gone_released (some t) o h = refl

pub demo_released :
    (w : Option MyResource) (params : PatchParams) (o : MyResource)
    → stored_demo w ≡ some o
    → is_some o.metadata.deletion_timestamp ≡ true
    → stored_demo (serve (merge_patch "apps" "demo" params (finalizers_patch null)) w).1 ≡ none
demo_released none params o h gone = cc
demo_released (some x) params o h gone = ap stored_demo (
    gone_released x.metadata.deletion_timestamp x
      (ap (λ (r : MyResource). is_some r.metadata.deletion_timestamp) (stored_value x o h) ∙ gone))

demo_cleared :
    (w : Option MyResource) (params : PatchParams) (o : MyResource)
    → stored_demo w ≡ some o
    → is_some o.metadata.deletion_timestamp ≡ false
    → stored_demo (serve (merge_patch "apps" "demo" params (finalizers_patch null)) w).1
      ≡ some (with_finalizers o [])
demo_cleared none params o h here = cc
demo_cleared (some x) params o h here =
    ap stored_demo (
      here_released x.metadata.deletion_timestamp x (
        ap (λ (r : MyResource). is_some r.metadata.deletion_timestamp) (stored_value x o h) ∙ here))
    ∙ ap (λ r. some (with_finalizers r [])) (stored_value x o h)

demo_removed :
    (q : Request) (w : Option MyResource) → stored_demo w ≡ none → stored_demo (serve q w).1 ≡ none
demo_removed q (some x) h = cc
demo_removed (get_resource _ _) none h = refl
demo_removed (merge_patch _ _ _ _) none h = refl
demo_removed (patch_status _ _ _ _) none h = refl
demo_removed (get_deployment _ _) none h = refl
demo_removed (apply_configmap _ _ _ _) none h = refl
demo_removed (apply_deployment _ _ _ _) none h = refl
demo_removed (apply_service _ _ _ _) none h = refl
demo_removed (publish _ _ _) none h = refl

pub server-IsStore : IsStore server "apps" "demo" stored_demo
server-IsStore = record {
  named = demo_named;
  elsewhere = demo_elsewhere;
  now_keeps = λ w. refl;
  timer_keeps = λ w. refl;
  elapsed_keeps = λ t w. refl;
  writes_status = λ w params status o h. inr (demo_written w params status o h);
  claims = λ w params o h. inr (demo_claimed w params o h);
  releases = λ w params o h gone. inr (demo_released w params o h gone);
  clears = λ w params o h here. inr (demo_cleared w params o h here);
  stays_removed = demo_removed;
}
