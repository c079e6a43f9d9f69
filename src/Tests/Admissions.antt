-- ===== src/Tests/Admissions.antt =====
-- The theorems on src/webhooks at concrete requests.
use k8s_operator_template.Prelude.{
  pos, true, false, ◌≡◌, refl, ◌↔◌, none, some, Option, Bool, String,
}
use k8s_operator_template.Prelude.Result.{Result, ok, IsOk}
use k8s_operator_template.Webhooks.Policies.{validate_all}
use k8s_operator_template.Webhooks.Policies.Context.{ValidationContext}
use k8s_operator_template.Webhooks.Server.{
  AdmissionRequest, create, Admission, IsDocumented, ok_200, validate_myresource,
}
use k8s_operator_template.Webhooks.Server.Handler.{Admissible, validate_myresource-Answers}
use k8s_operator_template.Reconciler.Actions.{validate_spec}
use k8s_operator_template.Reconciler.Agreement.{validate_all-agrees}
use k8s_operator_template.Tests.Sample.{fresh}

abbrev scale_up : ValidationContext
scale_up = record {
  resource = fresh (pos 11);
  old_resource = some (fresh (pos 3));
  dry_run = false;
  namespace = some "apps";
}

validate_all-agrees_example :
    ((validate_all scale_up).allowed ≡ true) ↔ IsOk (validate_spec (fresh (pos 11)))
validate_all-agrees_example = validate_all-agrees scale_up

-- A response, and the review that carries it.
record Reply : Type 0 where
  allowed : Bool
  uid : String
  message : Option String

abbrev plain : Admission
plain = record {
  Review = Result AdmissionRequest String;
  Response = Reply;
  ResponseReview = Reply;
  try_into = λ r. r;
  from = λ r. record { allowed = true; uid = r.uid; message = none };
  deny = λ r m. record r { allowed = false; message = some m };
  invalid = λ m. record { allowed = false; uid = ""; message = some m };
  into_review = λ r. r;
  allowed = λ r. r.allowed;
  uid = λ r. r.uid;
  message = λ r. r.message;
}

plain-IsDocumented : IsDocumented plain
plain-IsDocumented = record {
  from_allows = λ r. refl;
  from_uid = λ r. refl;
  deny_denies = λ r m. refl;
  deny_uid = λ r m. refl;
  deny_message = λ r m. refl;
  invalid_denies = λ m. refl;
}

abbrev request : AdmissionRequest
request = record {
  uid = "42";
  operation = create;
  object = some (fresh (pos 3));
  old_object = none;
  dry_run = false;
  namespace = some "apps";
}

validate_myresource-Answers_example :
    ((validate_myresource plain (ok request)).0 ≡ ok_200)
    × ((validate_myresource plain (ok request)).1.uid ≡ "42")
    × (((validate_myresource plain (ok request)).1.allowed ≡ true)
        ↔ Admissible plain plain-IsDocumented request)
validate_myresource-Answers_example =
    validate_myresource-Answers plain plain-IsDocumented (ok request) request refl
