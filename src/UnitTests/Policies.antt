-- ===== src/UnitTests/Policies.antt =====
-- The tests of src/webhooks/policies/replicas.rs and src/webhooks/policies/immutability.rs.
use k8s_operator_template.Prelude.{
  ℤ, pos, Bool, true, false, not, ◌≡◌, refl, ◌&&◌, Option, none, some, [],
}
use k8s_operator_template.Crd.{MyResource}
use k8s_operator_template.Validation.{min_replicas, max_replicas}
use k8s_operator_template.Webhooks.Policies.Context.{ValidationContext}
use k8s_operator_template.Webhooks.Policies.Replicas
use k8s_operator_template.Webhooks.Policies.Immutability
use k8s_operator_template.UnitTests.Contains.{contains, unwrap_contains}

-- Both files have this function.
abbrev create_resource : ℤ → MyResource
create_resource replicas = record {
  metadata = record {
    name_any = "test";
    namespace = some "default";
    uid = none;
    generation = none;
    deletion_timestamp = none;
    finalizers = [];
  };
  spec = record { replicas = replicas; message = "test"; labels = [] };
  status = none;
}

abbrev context : MyResource → Option MyResource → ValidationContext
context resource old_resource = record {
  resource = resource;
  old_resource = old_resource;
  dry_run = false;
  namespace = some "default";
}

abbrev test_valid_replicas : Bool
test_valid_replicas = (Replicas.validate (context (create_resource (pos 3)) none)).allowed

abbrev test_replicas_below_minimum : Bool
test_replicas_below_minimum =
    let result = Replicas.validate (context (create_resource (pos 0)) none) in
    not result.allowed && unwrap_contains result.reason "InvalidReplicas"

abbrev test_replicas_above_maximum : Bool
test_replicas_above_maximum =
    let result = Replicas.validate (context (create_resource (pos 100)) none) in
    not result.allowed && unwrap_contains result.reason "InvalidReplicas"

abbrev test_replicas_at_bounds : Bool
test_replicas_at_bounds =
    (Replicas.validate (context (create_resource min_replicas) none)).allowed
    && (Replicas.validate (context (create_resource max_replicas) none)).allowed

abbrev test_valid_update : Bool
test_valid_update =
    (Immutability.validate
      (context (create_resource (pos 3)) (some (create_resource (pos 2))))).allowed

abbrev test_scale_to_zero_denied : Bool
test_scale_to_zero_denied =
    let result =
      Immutability.validate (context (create_resource (pos 0)) (some (create_resource (pos 2)))) in
    not result.allowed && unwrap_contains result.reason "InvalidScaleDown"

abbrev test_create_allows_zero : Bool
test_create_allows_zero = (Immutability.validate (context (create_resource (pos 0)) none)).allowed

tests_pass :
    (test_valid_replicas && test_replicas_below_minimum && test_replicas_above_maximum
      && test_replicas_at_bounds && test_valid_update && test_scale_to_zero_denied
      && test_create_allows_zero)
    ≡ true
unfolding Replicas.validate Immutability.validate contains
tests_pass = refl
