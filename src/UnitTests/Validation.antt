-- ===== src/UnitTests/Validation.antt =====
-- The tests of src/controller/validation.rs.
use k8s_operator_template.Prelude.{
  ℤ, pos, negsuc, String, Bool, true, false, not, ◌≡◌, refl, ◌&&◌, ◌=?◌, none, some, [], sub_i32,
}
use k8s_operator_template.Prelude.BTreeMap.{map_eq}
use k8s_operator_template.Prelude.Result.{Result, ok, err}
use k8s_operator_template.Crd.{MyResource, default_status}
use k8s_operator_template.Errors.{Error}
use k8s_operator_template.Validation.{
  min_replicas, max_replicas, validate_spec, SpecDiff, spec_diff, validate_spec_change,
  requires_update, is_scale_only, has_changes, is_scale_up, is_scale_down, generation_changed,
}

abbrev is_ok : {A : Type 0} → Result A Error → Bool
is_ok (ok a) = true
is_ok (err e) = false

-- `unwrap()`, where a panic fails the test.
abbrev unwrap_and : Result SpecDiff Error → (SpecDiff → Bool) → Bool
unwrap_and (ok diff) f = f diff
unwrap_and (err e) f = false

abbrev create_test_resource : ℤ → String → MyResource
create_test_resource replicas message = record {
  metadata = record {
    name_any = "test";
    namespace = some "default";
    uid = none;
    generation = some (pos 1);
    deletion_timestamp = none;
    finalizers = [];
  };
  spec = record { replicas = replicas; message = message; labels = [] };
  status = some default_status;
}

abbrev test_validate_replicas_valid : Bool
test_validate_replicas_valid = is_ok (validate_spec (create_test_resource (pos 3) "test"))

abbrev test_validate_replicas_too_low : Bool
test_validate_replicas_too_low = not (is_ok (validate_spec (create_test_resource (pos 0) "test")))

abbrev test_validate_replicas_too_high : Bool
test_validate_replicas_too_high =
    not (is_ok (validate_spec (create_test_resource (pos 100) "test")))

abbrev test_validate_replicas_at_bounds : Bool
test_validate_replicas_at_bounds =
    is_ok (validate_spec (create_test_resource min_replicas "test"))
    && is_ok (validate_spec (create_test_resource max_replicas "test"))

abbrev test_spec_diff_replicas_change : Bool
test_spec_diff_replicas_change =
    unwrap_and
      (validate_spec_change (create_test_resource (pos 2) "test")
        (create_test_resource (pos 3) "test"))
      λ diff.
        diff.replicas_changed
        && (diff.replica_delta =? pos 1)
        && not diff.message_changed
        && is_scale_only diff
        && is_scale_up diff

abbrev test_spec_diff_message_change : Bool
test_spec_diff_message_change =
    unwrap_and
      (validate_spec_change (create_test_resource (pos 2) "old message")
        (create_test_resource (pos 2) "new message"))
      λ diff.
        not diff.replicas_changed
        && diff.message_changed
        && requires_update diff
        && not (is_scale_only diff)

abbrev test_spec_diff_no_change : Bool
test_spec_diff_no_change =
    unwrap_and
      (validate_spec_change (create_test_resource (pos 2) "test")
        (create_test_resource (pos 2) "test"))
      λ diff. not (has_changes diff)

abbrev test_spec_diff_scale_down : Bool
test_spec_diff_scale_down =
    unwrap_and
      (validate_spec_change (create_test_resource (pos 5) "test")
        (create_test_resource (pos 3) "test"))
      λ diff. diff.replicas_changed && (diff.replica_delta =? negsuc 1) && is_scale_down diff

-- The resource with a generation and the one that was observed.
abbrev observed : ℤ → ℤ → MyResource
observed generation observed_generation =
    let resource = create_test_resource (pos 2) "test" in
    record resource {
      metadata = record resource.metadata { generation = some generation };
      status = some (record default_status { observed_generation = some observed_generation });
    }

abbrev test_generation_changed : Bool
test_generation_changed = generation_changed (observed (pos 2) (pos 1))

abbrev test_generation_unchanged : Bool
test_generation_unchanged = not (generation_changed (observed (pos 1) (pos 1)))

tests_pass :
    (test_validate_replicas_valid && test_validate_replicas_too_low
      && test_validate_replicas_too_high && test_validate_replicas_at_bounds
      && test_spec_diff_replicas_change && test_spec_diff_message_change && test_spec_diff_no_change
      && test_spec_diff_scale_down && test_generation_changed && test_generation_unchanged)
    ≡ true
unfolding validate_spec validate_spec_change spec_diff generation_changed is_scale_only is_scale_up
    is_scale_down has_changes requires_update default_status sub_i32 map_eq
tests_pass = refl
