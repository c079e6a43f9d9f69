-- ===== src/UnitTests/Server.antt =====
-- The tests of src/webhooks/server.rs.
use k8s_operator_template.Prelude.{
  ℤ, pos, String, Bool, true, false, not, ◌≡◌, refl, ◌&&◌, Option, none, some, [], to_string,
}
use k8s_operator_template.Crd.{MyResource}
use k8s_operator_template.Webhooks.Policies.{validate_all}
use k8s_operator_template.Webhooks.Policies.Context.{ValidationContext}
use k8s_operator_template.UnitTests.Contains.{contains, unwrap_contains}

abbrev create_resource : ℤ → String → MyResource
create_resource replicas message = record {
  metadata = record {
    name_any = "test";
    namespace = some "default";
    uid = some "test-uid";
    generation = none;
    deletion_timestamp = none;
    finalizers = [];
  };
  spec = record { replicas = replicas; message = message; labels = [] };
  status = none;
}

abbrev context : MyResource → Option MyResource → ValidationContext
context resource old_resource = record {
  resource = resource;
  old_resource = old_resource;
  dry_run = false;
  namespace = some "default";
}

abbrev test_valid_create_request : Bool
test_valid_create_request = (validate_all (context (create_resource (pos 3) "test") none)).allowed

abbrev test_invalid_replicas_on_create : Bool
test_invalid_replicas_on_create =
    not (validate_all (context (create_resource (pos 0) "test") none)).allowed

abbrev test_valid_update_request : Bool
test_valid_update_request =
    (validate_all
      (context (create_resource (pos 3) "new") (some (create_resource (pos 2) "old")))).allowed

abbrev test_scale_to_zero_on_update : Bool
test_scale_to_zero_on_update =
    let result =
      validate_all
        (context (create_resource (pos 0) "new") (some (create_resource (pos 2) "old"))) in
    not result.allowed && unwrap_contains result.message "at least"

tests_pass :
    (test_valid_create_request && test_invalid_replicas_on_create && test_valid_update_request
      && test_scale_to_zero_on_update)
    ≡ true
unfolding validate_all contains to_string
tests_pass = refl
