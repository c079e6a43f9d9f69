-- ===== src/Reconciler/Policy.antt =====
-- `error_policy` of src/controller/reconciler.rs.
use k8s_operator_template.Prelude.{
  Bool, true, false, ◌≡◌, refl, ◌≢◌, sym, ap, ◌↔◌, inl, inr, arith, Bool-cases,
}
use mathlib.Core.Option
use k8s_operator_template.Crd.{MyResource}
use k8s_operator_template.Errors.{
  Error, ErrorStatus, Duration, from_secs, is_not_found, is_retryable, requeue_after,
}
use k8s_operator_template.Errors.Retry.{IsTransient, is_retryable_iff, not_found-ne-retryable}
use k8s_operator_template.Health.{Prometheus, HealthState, record_error}
use k8s_operator_template.Platform.Requests.{Platform}
use k8s_operator_template.Platform.Exec.{State, with_health}
use k8s_operator_template.Platform.Events.{Context}
use k8s_operator_template.Reconciler.Actions.{Action, requeue, await_change}
use k8s_operator_template.Reconciler.Loop.{namespace_of, error_action, error_policy}

-- The seconds until the next visit, which tell the actions apart.
secs_of : Action → Duration
secs_of (requeue d) = d
secs_of await_change = from_secs 0

delays_differ : requeue (from_secs 30) ≢ requeue (from_secs 300)
unfolding secs_of
delays_differ h = omega (arith, ap (λ (a : Action). (secs_of a).secs) h)

-- What the action says of the error, for an API test that tells not-found errors.
pub record Answers (not_found : ErrorStatus → Bool) (e : Error) (a : Action) : Type 0 where
  pub awaits : (a ≡ await_change) ↔ (is_not_found not_found e ≡ true)
  pub retries : (a ≡ requeue (from_secs 30)) ↔ IsTransient e
  pub waits : (a ≡ requeue (from_secs 300)) ↔ ((is_not_found not_found e ≡ false) × ¬ IsTransient e)

-- The three cases, by the two tests on the error.
not_found-Answers :
    (f : ErrorStatus → Bool) (e : Error)
    → is_not_found f e ≡ true
    → is_retryable e ≡ false
    → Answers f e await_change
not_found-Answers f e gone never = record {
  awaits = (λ _. gone, λ _. refl);
  retries = (λ h. cc, λ t. cc ((is_retryable_iff e).1 t));
  waits = (λ h. cc, λ h. cc (h.0));
}

transient-Answers :
    (f : ErrorStatus → Bool) (e : Error)
    → is_not_found f e ≡ false
    → is_retryable e ≡ true
    → Answers f e (requeue (from_secs 30))
transient-Answers f e there again = record {
  awaits = (λ h. cc, λ h. cc);
  retries = (λ _. (is_retryable_iff e).0 again, λ _. refl);
  waits = (λ h. absurd (delays_differ h), λ h. absurd (h.1 ((is_retryable_iff e).0 again)));
}

lasting-Answers :
    (f : ErrorStatus → Bool) (e : Error)
    → is_not_found f e ≡ false
    → is_retryable e ≡ false
    → Answers f e (requeue (from_secs 300))
lasting-Answers f e there never = record {
  awaits = (λ h. cc, λ h. cc);
  retries = (λ h. absurd (delays_differ (sym h)), λ t. cc ((is_retryable_iff e).1 t));
  waits = (λ _. (there, λ t. cc ((is_retryable_iff e).1 t)), λ _. refl);
}

action-Answers :
    (f : ErrorStatus → Bool) (e : Error)
    → ((s : ErrorStatus) → f s ≡ true → s.code ≡ 404)
    → Answers f e (error_action f e)
unfolding error_action requeue_after
action-Answers f e sound = elim (Bool-cases (is_not_found f e)) [
  | inl gone ↦ rw gone (not_found-Answers f e gone (not_found-ne-retryable f sound e gone))
  | inr there ↦ elim (Bool-cases (is_retryable e)) [
    | inl again ↦ rw (there, again) (transient-Answers f e there again)
    | inr never ↦ rw (there, never) (lasting-Answers f e there never)
  ]
]

-- The update of the metrics for an error.
abbrev pub failed_visit : (p : Prometheus) → MyResource → HealthState p → HealthState p
failed_visit p obj h = record h {
  metrics = record_error p (namespace_of obj) obj.metadata.name_any h.metrics;
}

module _ {P : Platform} (ctx : Context) (obj : MyResource) where
  -- If the platform's not-found test holds of statuses with code 404 only: an error is answered by
  -- awaiting a change exactly when the object was not found, by a visit in 30 seconds exactly when
  -- the error is transient, by one in 300 seconds exactly when it is neither; the error is counted,
  -- and no request is sent.
  pub error_policy-Answers :
      (e : Error) (s : State P)
      → ((status : ErrorStatus) → P.status_not_found status ≡ true → status.code ≡ 404)
      → Answers P.status_not_found e (error_policy ctx obj e s).0
        × ((error_policy ctx obj e s).1.health
            ≡ Option.map (failed_visit P.prometheus obj) s.health)
        × ((error_policy ctx obj e s).1.log ≡ s.log)
        × ((error_policy ctx obj e s).1.world ≡ s.world)
  unfolding error_policy with_health
  error_policy-Answers e s sound = (action-Answers P.status_not_found e sound, refl, refl, refl)
