-- ===== src/Webhooks/Server.antt =====
-- src/webhooks/server.rs: the handler of admission requests. What kube and axum provide (taking a
-- request out of a review, building responses) is the parameter `Admission`.
pub mod Handler
use k8s_operator_template.Prelude.{
  ℕ, String, Bool, true, false, not, ◌≡◌, Option, none, some, [], ◌∷◌, format, unwrap_or, ◌≢◌,
  if◌then◌else◌, ◌<>◌,
}
use k8s_operator_template.Prelude.Result.{Result, ok, err}
use k8s_operator_template.Crd.{MyResource}
use k8s_operator_template.Webhooks.Policies.{validate_all}
use k8s_operator_template.Webhooks.Policies.Context.{ValidationContext, ValidationResult}

-- The operation of a request, as kube names it.
pub data Operation : Type 0 where
  create update delete connect : Operation

abbrev pub is_delete : Operation → Bool
is_delete delete = true
is_delete _ = false

-- The fields of a request that the handler reads.
pub record AdmissionRequest : Type 0 where
  pub uid : String
  pub operation : Operation
  pub object : Option MyResource
  pub old_object : Option MyResource
  pub dry_run : Bool
  pub namespace : Option String

-- HTTP status codes that the handlers answer.
pub data StatusCode : Type 0 where
  ok_200 bad_request_400 service_unavailable_503 : StatusCode

-- kube's admission types: a review that comes in, the request in it, a response and the review that
-- carries it back, with what the documentation says a client reads in that review.
pub record Admission : Type 1 where
  pub Review : Type 0
  pub Response : Type 0
  pub ResponseReview : Type 0
  pub try_into : Review → Result AdmissionRequest String
  pub from : AdmissionRequest → Response
  pub deny : Response → String → Response
  pub invalid : String → Response
  pub into_review : Response → ResponseReview
  pub allowed : ResponseReview → Bool
  pub uid : ResponseReview → String
  pub message : ResponseReview → Option String

-- The documented behaviour of those types that the handler relies on.
pub record IsDocumented (a : Admission) : Type 0 where
  pub from_allows : (r : AdmissionRequest) → a.allowed (a.into_review (a.from r)) ≡ true
  pub from_uid : (r : AdmissionRequest) → a.uid (a.into_review (a.from r)) ≡ r.uid
  pub deny_denies :
      (r : AdmissionRequest) (m : String) → a.allowed (a.into_review (a.deny (a.from r) m)) ≡ false
  pub deny_uid :
      (r : AdmissionRequest) (m : String) → a.uid (a.into_review (a.deny (a.from r) m)) ≡ r.uid
  pub deny_message :
      (r : AdmissionRequest) (m : String) → a.message (a.into_review (a.deny (a.from r) m)) ≡ some m
  pub invalid_denies : (m : String) → a.allowed (a.into_review (a.invalid m)) ≡ false

module _ (a : Admission) where
  unfoldable deny_with_reason : AdmissionRequest → String → String → a.ResponseReview
  deny_with_reason request message reason =
      a.into_review (a.deny (a.from request) (format ("[" ∷ reason ∷ "] " ∷ message ∷ [])))

  -- The answer to the result of the policies.
  unfoldable pub answer : AdmissionRequest → ValidationResult → StatusCode × a.ResponseReview
  unfolding deny_with_reason
  answer request result =
      if not result.allowed
      then (
        ok_200,
        deny_with_reason request (unwrap_or result.message "Validation failed")
            (unwrap_or result.reason "ValidationFailed"),
      )
      else (ok_200, a.into_review (a.from request))

  -- The part of the handler for a request that carries an object.
  unfoldable pub judge : AdmissionRequest → MyResource → StatusCode × a.ResponseReview
  unfolding answer
  judge request resource =
      let ctx : ValidationContext = record {
        resource = resource;
        old_resource = request.old_object;
        dry_run = request.dry_run;
        namespace = request.namespace;
      } in
      answer request (validate_all ctx)

  unfoldable pub with_object : AdmissionRequest → Option MyResource → StatusCode × a.ResponseReview
  unfolding judge deny_with_reason
  with_object request none =
      (ok_200, deny_with_reason request "Missing object in request" "InvalidRequest")
  with_object request (some resource) = judge request resource

  unfoldable pub handle : AdmissionRequest → StatusCode × a.ResponseReview
  unfolding with_object
  handle request =
      if is_delete request.operation
      then (ok_200, a.into_review (a.from request))
      else with_object request request.object

  unfoldable pub validate_myresource : a.Review → StatusCode × a.ResponseReview
  unfolding handle
  validate_myresource review = elim (a.try_into review) [
    | ok request ↦ handle request
    | err e ↦
        (bad_request_400, a.into_review (a.invalid (format ("Invalid AdmissionReview: " ∷ e ∷ []))))
  ]
