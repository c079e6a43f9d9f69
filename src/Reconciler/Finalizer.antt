-- ===== src/Reconciler/Finalizer.antt =====
-- The two early returns of `reconcile` in src/controller/reconciler.rs, on every platform.
use k8s_operator_template.Prelude.{true, false, ◌≡◌, refl, ◌∷◌, is_some}
use k8s_operator_template.Prelude.Json.{text, null, array, nil, cons}
use k8s_operator_template.Prelude.Result.{Result, ok, err}
use k8s_operator_template.Crd.{MyResource}
use k8s_operator_template.Errors.{Error, KubeError, kube, from_secs}
use k8s_operator_template.Platform.Requests.{Platform, Request, merge_patch}
use k8s_operator_template.Platform.Exec.{State, pure, lift_kube, send, call, start_timer, ◌>>=◌}
use k8s_operator_template.Platform.Events.{Context}
use k8s_operator_template.Platform.Contracts.{sent}
use k8s_operator_template.Reconciler.Actions.{
  finalizer, apply_params, forced_params, finalizers_patch, Action, requeue, await_change,
  add_finalizer, remove_finalizer, handle_deletion,
}
use k8s_operator_template.Reconciler.Loop.{has_finalizer, namespace_of, claim, reconcile}

-- The result of an action that sends one patch: the action, or kube's error.
abbrev pub patched : Result (Unit {0}) KubeError → Action → Result Action Error
patched (ok _) a = ok a
patched (err e) a = err (kube e)

abbrev pub release_patch : MyResource → Request
release_patch obj =
    merge_patch (namespace_of obj) obj.metadata.name_any forced_params (finalizers_patch null)

abbrev pub claim_patch : MyResource → Request
claim_patch obj =
    merge_patch (namespace_of obj) obj.metadata.name_any apply_params
      (finalizers_patch (array (cons (text finalizer) nil)))

-- The state after one patch of `obj`, sent from `s` once the timer was read.
abbrev pub after_patch : {P : Platform} → Request → State P → State P
after_patch {P} q s = record s {
  world = (P.perform q (P.start_timer s.world).1).1;
  log = q ∷ s.log;
}

module _ {P : Platform} where
  -- `?` on the answer to a patch, and then the action.
  answered :
      (r : Result (Unit {0}) KubeError) (a : Action) (t : State P)
      → (lift_kube {P = P} r >>= λ _. pure a) t ≡ (patched r a, t)
  unfolding ◌>>=◌
  answered (ok _) a t = refl
  answered (err e) a t = refl

  deletion_lem :
      (obj : MyResource) (t : State P)
      → handle_deletion {P = P} obj (namespace_of obj) t ≡ (
        patched (P.perform (release_patch obj) t.world).0 await_change,
        sent (release_patch obj) t,
      )
  unfolding handle_deletion remove_finalizer call send ◌>>=◌
  deletion_lem obj t =
      answered (P.perform (release_patch obj) t.world).0 await_change (sent (release_patch obj) t)

  claim_lem :
      (ctx : Context) (obj : MyResource) (t : State P)
      → claim {P = P} ctx obj t ≡ (
        patched (P.perform (claim_patch obj) t.world).0 (requeue (from_secs 1)),
        sent (claim_patch obj) t,
      )
  unfolding claim add_finalizer call send ◌>>=◌
  claim_lem ctx obj t =
      answered (P.perform (claim_patch obj) t.world).0 (requeue (from_secs 1))
        (sent (claim_patch obj) t)

module _ {P : Platform} (ctx : Context) (obj : MyResource) where
  -- A deleted resource gets one request, which clears its finalizers, whatever finalizers it has;
  -- the result is to await a change, or the error of that request.
  pub reconcile-deleted :
      (s : State P)
      → is_some obj.metadata.deletion_timestamp ≡ true
      → reconcile ctx obj s ≡ (
        patched (P.perform (release_patch obj) (P.start_timer s.world).1).0 await_change,
        after_patch (release_patch obj) s,
      )
  unfolding reconcile start_timer ◌>>=◌
  reconcile-deleted s gone = rw (gone, reconcile) (deletion_lem obj _)

  -- A resource that is not being deleted and has not the finalizer gets one request, which sets its
  -- finalizers to that one alone; the result is a visit in one second, or the error of that
  -- request.
  pub reconcile-unclaimed :
      (s : State P)
      → is_some obj.metadata.deletion_timestamp ≡ false
      → has_finalizer obj.metadata.finalizers ≡ false
      → reconcile ctx obj s ≡ (
        patched (P.perform (claim_patch obj) (P.start_timer s.world).1).0 (requeue (from_secs 1)),
        after_patch (claim_patch obj) s,
      )
  unfolding reconcile start_timer ◌>>=◌
  reconcile-unclaimed s kept foreign = rw (kept, foreign, reconcile) (claim_lem ctx obj _)
