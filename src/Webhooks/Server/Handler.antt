-- ===== src/Webhooks/Server/Handler.antt =====
-- What the handler of src/webhooks/server.rs answers, over kube's documented admission types.
use k8s_operator_template.Prelude.{
  String, true, false, ◌≡◌, refl, ◌≢◌, ◌↔◌, ◌⊎◌, inl, inr, Option, none, some, sym, ◌∙◌, subst, [],
  ◌∷◌, format, unwrap_or, if◌then◌else◌, Bool-cases,
}
use k8s_operator_template.Prelude.Result.{ok, err}
use k8s_operator_template.Crd.{MyResource}
use k8s_operator_template.Validation.Bounds.{InBounds}
use k8s_operator_template.Webhooks.Policies.{validate_all}
use k8s_operator_template.Webhooks.Policies.Context.{ValidationContext, ValidationResult}
use k8s_operator_template.Webhooks.Policies.Decision.{validate_all_iff}
use k8s_operator_template.Webhooks.Server.{
  Operation, delete, AdmissionRequest, StatusCode, ok_200, bad_request_400, Admission, IsDocumented,
  is_delete, create, update, connect, judge, with_object, handle, validate_myresource,
}

module _ (a : Admission) (doc : IsDocumented a) where
  -- The context in which the policies see an object.
  abbrev context : AdmissionRequest → MyResource → ValidationContext
  context r o = record {
    resource = o;
    old_resource = r.old_object;
    dry_run = r.dry_run;
    namespace = r.namespace;
  }

  -- A request that the operator admits: a deletion, or an object within the bounds.
  abbrev pub Admissible : AdmissionRequest → Type 0
  Admissible r =
      (r.operation ≡ delete) ⊎ ((o : MyResource) × (r.object ≡ some o) × InBounds o.spec.replicas)

  -- How a request is answered, and why.
  data Outcome (r : AdmissionRequest) (response : StatusCode × a.ResponseReview) : Type 0 where
    admits : Admissible r → response ≡ (ok_200, a.into_review (a.from r)) → Outcome r response
    denies :
        (m : String)
        → ¬ Admissible r
        → response ≡ (ok_200, a.into_review (a.deny (a.from r) m))
        → Outcome r response

  -- The text of a denial by the policies.
  abbrev denial : ValidationResult → String
  denial v = format (
      "["
      ∷ unwrap_or v.reason "ValidationFailed"
      ∷ "] "
      ∷ unwrap_or v.message "Validation failed"
      ∷ [])

  judge_denies :
      (r : AdmissionRequest) (o : MyResource)
      → (validate_all (context r o)).allowed ≡ false
      → judge a r o
        ≡ (ok_200, a.into_review (a.deny (a.from r) (denial (validate_all (context r o)))))
  unfolding judge
  judge_denies r o h = rw h

  judge_allows :
      (r : AdmissionRequest) (o : MyResource)
      → (validate_all (context r o)).allowed ≡ true
      → judge a r o ≡ (ok_200, a.into_review (a.from r))
  unfolding judge
  judge_allows r o h = rw h

  not-Admissible :
      (r : AdmissionRequest) (o : MyResource)
      → r.operation ≢ delete
      → r.object ≡ some o
      → (validate_all (context r o)).allowed ≡ false
      → ¬ Admissible r
  not-Admissible r o n e h (inl d) = n d
  not-Admissible r o n e h (inr (o', e', fits)) =
      let same : o' ≡ o = cc (sym e' ∙ e) in
      cc (h, (validate_all_iff (context r o)).1 (subst (λ x. InBounds x.spec.replicas) same fits))

  judge-Outcome :
      (r : AdmissionRequest) (o : MyResource)
      → r.operation ≢ delete
      → r.object ≡ some o
      → Outcome r (judge a r o)
  judge-Outcome r o n e = elim (Bool-cases (validate_all (context r o)).allowed) [
    | inl fits ↦
        admits (inr (o, e, (validate_all_iff (context r o)).0 fits)) (judge_allows r o fits)
    | inr unfit ↦
        denies (denial (validate_all (context r o))) (not-Admissible r o n e unfit)
          (judge_denies r o unfit)
  ]

  object-Outcome :
      (r : AdmissionRequest) (o : Option MyResource)
      → r.operation ≢ delete
      → r.object ≡ o
      → Outcome r (with_object a r o)
  unfolding with_object
  object-Outcome r none n e =
      denies "[InvalidRequest] Missing object in request"
        (λ h. elim h [ inl d ↦ n d | inr (o, e', fits) ↦ cc ]) refl
  object-Outcome r (some o) n e = judge-Outcome r o n e

  handle-Outcome : (r : AdmissionRequest) → Outcome r (handle a r)
  unfolding handle
  handle-Outcome r = go r.operation refl
    where
      go :
          (op : Operation)
          → r.operation ≡ op
          → Outcome r (
              if is_delete op then (ok_200, a.into_review (a.from r)) else with_object a r r.object)
      go delete e = admits (inl e) refl
      go create e = object-Outcome r r.object (λ d. cc) refl
      go update e = object-Outcome r r.object (λ d. cc) refl
      go connect e = object-Outcome r r.object (λ d. cc) refl

  -- What a client reads in an answer.
  record Answers (r : AdmissionRequest) (response : StatusCode × a.ResponseReview) : Type 0 where
    pub status : response.0 ≡ ok_200
    pub uid : a.uid response.1 ≡ r.uid
    pub verdict : (a.allowed response.1 ≡ true) ↔ Admissible r

  Outcome-Answers :
      (r : AdmissionRequest) (response : StatusCode × a.ResponseReview)
      → Outcome r response
      → Answers r response
  Outcome-Answers r response (admits fits e) = record {
    status = rw e;
    uid = rw e (doc.from_uid r);
    verdict = (λ _. fits, λ _. rw e (doc.from_allows r));
  }
  Outcome-Answers r response (denies m unfit e) = record {
    status = rw e;
    uid = rw e (doc.deny_uid r m);
    verdict = (λ h. cc (doc.deny_denies r m, rw e at h), λ fits. absurd (unfit fits));
  }

  handled :
      (review : a.Review) (r : AdmissionRequest)
      → a.try_into review ≡ ok r
      → validate_myresource a review ≡ handle a r
  unfolding validate_myresource
  handled review r h = rw (h, validate_myresource)

  -- A review that holds a request is answered with HTTP status 200 and with the uid of the request,
  -- and it is allowed exactly when the request is a deletion or carries an object whose replica
  -- count lies in 1..10.
  pub validate_myresource-Answers :
      (review : a.Review) (r : AdmissionRequest)
      → a.try_into review ≡ ok r
      → ((validate_myresource a review).0 ≡ ok_200)
        × (a.uid (validate_myresource a review).1 ≡ r.uid)
        × ((a.allowed (validate_myresource a review).1 ≡ true) ↔ Admissible r)
  validate_myresource-Answers review r h =
      let ans = Outcome-Answers r (handle a r) (handle-Outcome r) in
      rw (handled review r h) (ans.status, ans.uid, ans.verdict)

  -- A review that holds none is answered with 400 and is not allowed.
  validate_myresource-invalid :
      (review : a.Review) (e : String)
      → a.try_into review ≡ err e
      → ((validate_myresource a review).0 ≡ bad_request_400)
        × (a.allowed (validate_myresource a review).1 ≡ false)
  unfolding validate_myresource
  validate_myresource-invalid review e h = rw (h, validate_myresource) (refl, doc.invalid_denies _)
