-- ===== src/Reconciler/Returns.antt =====
-- When the controller is told to come back by src/controller/reconciler.rs.
use k8s_operator_template.Prelude.{
  Bool, true, false, ◌≡◌, refl, sym, subst, ◌∷◌, ◌≤◌, inl, inr, is_some, arith, Bool-cases,
}
use k8s_operator_template.Prelude.Result.{Result, ok, err}
use k8s_operator_template.Crd.{MyResource, Phase}
use k8s_operator_template.Errors.{
  Error, KubeError, kube, ErrorStatus, Duration, from_secs, is_not_found, is_retryable,
  requeue_after,
}
use k8s_operator_template.Platform.Requests.{Platform, PatchParams, merge_patch}
use k8s_operator_template.Platform.Exec.{State}
use k8s_operator_template.Platform.Events.{Context}
use k8s_operator_template.Platform.Contracts.{Returns}
use k8s_operator_template.Reconciler.Actions.{
  Action, requeue, await_change, finalizers_patch, forced_params,
}
use k8s_operator_template.Reconciler.Finalizer.{patched, release_patch, reconcile-deleted}
use k8s_operator_template.Prelude.Json.{null}
use k8s_operator_template.Reconciler.Loop.{
  namespace_of, requeue_duration, error_action, reconcile, error_policy,
}
use k8s_operator_template.Reconciler.Footprint.{
  Returning, gives_up, takes_on, goes_on, reconcile-Does,
}

-- What the controller is told after a visit: the visit's action, or that of `error_policy`.
abbrev pub told : {P : Platform} → Context → MyResource → Result Action Error × State P → Action
told ctx obj (ok a, s) = a
told ctx obj (err e, s) = (error_policy ctx obj e s).0

-- Another visit, in 1 to 300 seconds.
pub record IsSoon (a : Action) : Type 0 where
  pub delay : Duration
  pub asks : a ≡ requeue delay
  pub later : 1 ≤ delay.secs
  pub soon : delay.secs ≤ 300

soon : (d : Duration) → 1 ≤ d.secs → d.secs ≤ 300 → IsSoon (requeue d)
soon d later h = record { delay = d; asks = refl; later = later; soon = h }

phase-IsSoon : (q : Phase) → IsSoon (requeue (requeue_duration q))
unfolding requeue_duration
phase-IsSoon q = soon (requeue_duration q) (ground arith) (ground arith)

error-IsSoon :
    (f : ErrorStatus → Bool) (e : Error) → is_not_found f e ≡ false → IsSoon (error_action f e)
unfolding error_action requeue_after
error-IsSoon f e there = elim (Bool-cases (is_retryable e)) [
  | inl again ↦ rw (there, again) (soon (from_secs 30) (omega arith) (omega arith))
  | inr never ↦ rw (there, never) (soon (from_secs 300) (omega arith) (omega arith))
]

-- A visit from `s` to a deleted resource that sent the patch that clears its finalizers, which the
-- API server answered without an error.
pub record IsReleased {P : Platform} (obj : MyResource) (s : State P)
    (end : Result Action Error × State P) : Type 0 where
  pub deleted : is_some obj.metadata.deletion_timestamp ≡ true
  pub params : PatchParams
  pub sent :
      end.1.log
      ≡ merge_patch (namespace_of obj) obj.metadata.name_any params (finalizers_patch null) ∷ s.log
  pub answered :
      P.perform
        (merge_patch (namespace_of obj) obj.metadata.name_any params (finalizers_patch null))
        (P.start_timer s.world).1
      ≡ (ok tt, end.1.world)
  pub result : end.0 ≡ ok await_change

-- How a visit from `s` ends: with another one soon, with the release of a deleted resource, or
-- because the object was not found.
pub data Ends {P : Platform} (ctx : Context) (obj : MyResource) (s : State P)
    (end : Result Action Error × State P) : Type 0 where
  again : IsSoon (told ctx obj end) → Ends ctx obj s end
  released : IsReleased obj s end → Ends ctx obj s end
  missing :
      (e : Error) → end.0 ≡ err e → is_not_found P.status_not_found e ≡ true → Ends ctx obj s end

module _ {P : Platform} (ctx : Context) (obj : MyResource) (s : State P) where
  error-Ends : (e : Error) (t : State P) → Ends ctx obj s (err e, t)
  unfolding error_policy
  error-Ends e t = elim (Bool-cases (is_not_found P.status_not_found e)) [
    | inl gone ↦ missing e refl gone
    | inr there ↦ again (error-IsSoon P.status_not_found e there)
  ]

  Returning-Ends :
      (a : Action) (t : State P)
      → is_some obj.metadata.deletion_timestamp ≡ false
      → Returning obj a
      → Ends ctx obj s (ok a, t)
  Returning-Ends a t kept (gives_up gone e) = cc
  Returning-Ends a t kept (takes_on here foreign e) =
      again (rw e (soon (from_secs 1) (omega arith) (omega arith)))
  Returning-Ends a t kept (goes_on alive q moves e) = again (rw e (phase-IsSoon q))

  Returns-Ends :
      (r : Result Action Error) (t : State P)
      → is_some obj.metadata.deletion_timestamp ≡ false
      → Returns (Returning obj) r
      → Ends ctx obj s (r, t)
  Returns-Ends (ok a) t kept h = Returning-Ends a t kept h
  Returns-Ends (err e) t kept h = error-Ends e t

  -- The answer to the patch of a deleted resource.
  patched-Ends :
      (r : Result (Unit {0}) KubeError) (v : P.World)
      → is_some obj.metadata.deletion_timestamp ≡ true
      → P.perform (release_patch obj) (P.start_timer s.world).1 ≡ (r, v)
      → Ends ctx obj s
          (patched r await_change, record s { world = v; log = release_patch obj ∷ s.log })
  patched-Ends (ok tt) v gone e =
      released (record {
        deleted = gone;
        params = forced_params;
        sent = refl;
        answered = e;
        result = refl;
      })
  patched-Ends (err k) v gone e = error-Ends (kube k) _

  -- Whatever the platform answers, after a visit the controller is told to come back in 1 to 300
  -- seconds, by the visit's action or, for an error, by `error_policy`; unless the resource is
  -- deleted and the visit sent the patch that clears its finalizers, which was answered without an
  -- error, or the error says that an object was not found.
  pub reconcile-Ends : Ends ctx obj s (reconcile ctx obj s)
  reconcile-Ends = elim (Bool-cases (is_some obj.metadata.deletion_timestamp)) [
    | inl gone ↦
        subst (λ (end : Result Action Error × State P). Ends ctx obj s end)
          (sym (reconcile-deleted ctx obj s gone)) (patched-Ends _ _ gone refl)
    | inr kept ↦
        Returns-Ends (reconcile ctx obj s).0 (reconcile ctx obj s).1 kept
          ((reconcile-Does ctx obj {I = λ s. Unit} (record {
            on_send = λ q s asked h. tt;
            on_now = λ s h. tt;
            on_start_timer = λ s h. tt;
            on_elapsed = λ t s h. tt;
            on_health = λ f s h. tt;
          })).at
            s tt).1
  ]
