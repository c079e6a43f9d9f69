-- ===== src/Errors/Retry.antt =====
-- When src/controller/error.rs retries an error, and after how long.
use k8s_operator_template.Prelude.{
  ◌≤◌, String, Bool, true, false, ◌≡◌, refl, sym, ap, ◌≢◌, Bool-cases, ◌↔◌, ◌⊎◌, inl, inr, arith,
}
use k8s_operator_template.Errors.{
  Error, kube, missing_field, validation, transient, permanent, serialization, api, service, other,
  ErrorStatus, Duration, from_secs, is_not_found, is_retryable, requeue_after,
}

-- The errors that may pass by themselves: a server error or a rate limit of the API, a service
-- error of the connection, and what the controller itself calls transient.
pub data IsTransient : Error → Type 0 where
  server_error : (s : ErrorStatus) → 500 ≤ s.code → IsTransient (kube (api s))
  rate_limit : (s : ErrorStatus) → s.code ≡ 429 → IsTransient (kube (api s))
  connection : (text : String) → IsTransient (kube (service text))
  declared : (text : String) → IsTransient (transient text)

retryable-IsTransient : (e : Error) → is_retryable e ≡ true → IsTransient e
unfolding is_retryable
retryable-IsTransient (kube (api s)) h = elim (cases s h) [
  | inl big ↦ server_error s big
  | inr limit ↦ rate_limit s limit
]
  where
    cases : (s : ErrorStatus) → is_retryable (kube (api s)) ≡ true → (500 ≤ s.code) ⊎ (s.code ≡ 429)
    cases s h = ground arith
retryable-IsTransient (kube (service t)) h = connection t
retryable-IsTransient (transient t) h = declared t
retryable-IsTransient (kube (other t)) h = cc
retryable-IsTransient (validation t) h = cc
retryable-IsTransient (permanent t) h = cc
retryable-IsTransient (missing_field t) h = cc
retryable-IsTransient (serialization t) h = cc

IsTransient-retryable : {e : Error} → IsTransient e → is_retryable e ≡ true
unfolding is_retryable
IsTransient-retryable (server_error s h) = ground arith
IsTransient-retryable (rate_limit s h) = ground arith
IsTransient-retryable (connection t) = refl
IsTransient-retryable (declared t) = refl

-- An error is retried exactly when it may pass by itself.
pub is_retryable_iff : (e : Error) → (is_retryable e ≡ true) ↔ IsTransient e
is_retryable_iff e = (retryable-IsTransient e, IsTransient-retryable)

hour_is_long : from_secs 30 ≢ from_secs 3600
hour_is_long h = omega (arith, ap (λ (d : Duration). d.secs) h)

-- The recommended delay is 30 seconds exactly for those errors, and an hour for all others.
requeue_after_iff :
    (e : Error)
    → ((requeue_after e ≡ from_secs 30) ↔ IsTransient e)
      × ((requeue_after e ≡ from_secs 3600) ↔ ¬ IsTransient e)
unfolding requeue_after
requeue_after_iff e = elim (Bool-cases (is_retryable e)) [
  | inl yes_retry ↦ (
    (λ _. retryable-IsTransient e yes_retry, λ _. rw yes_retry),
    (
      λ h. absurd (hour_is_long (rw yes_retry at h)),
      λ n. absurd (n (retryable-IsTransient e yes_retry)),
    ),
  )
  | inr no_retry ↦ (
    (λ h. absurd (hour_is_long (sym (rw no_retry at h))), λ t. cc (IsTransient-retryable t)),
    (λ _ t. cc (IsTransient-retryable t), λ _. rw no_retry),
  )
]

-- If the API's not-found test holds of statuses with code 404 only, a not-found error is not
-- retried.
pub not_found-ne-retryable :
    (status_not_found : ErrorStatus → Bool)
    → ((s : ErrorStatus) → status_not_found s ≡ true → s.code ≡ 404)
    → (e : Error) → is_not_found status_not_found e ≡ true
    → is_retryable e ≡ false
unfolding is_not_found is_retryable
not_found-ne-retryable f sound (kube (api s)) h = ground (arith, sound s h)
not_found-ne-retryable f sound (kube (service t)) h = cc
not_found-ne-retryable f sound e h = cc
