-- ===== src/Tests/Checks.antt =====
-- The theorems on src/controller/validation.rs, src/controller/error.rs and
-- src/controller/status.rs at concrete inputs.
use Prim.Native.String.{len}
use k8s_operator_template.Prelude.{
  pos, negsuc, ◌≡◌, refl, ◌↔◌, ◌≤◌, ◌<ℤ◌, true, false, some, [], ◌∷◌, IsI32, ◌-ℤ◌, sub_i32, arith,
  Bool, ◌==◌, str_eq, if◌then◌else◌,
}
use k8s_operator_template.Prelude.BTreeMap.{map_eq}
use k8s_operator_template.Prelude.Result.{ok}
use k8s_operator_template.Crd.{MyResource}
use k8s_operator_template.Crd.Condition
use k8s_operator_template.Crd.Condition.{Condition}
use k8s_operator_template.Errors.{ErrorStatus}
use k8s_operator_template.Validation.{
  validate_spec, validate_spec_change, SpecDiff, spec_diff, is_scale_down,
}
use k8s_operator_template.Validation.Bounds.{InBounds, validate_spec_iff}
use k8s_operator_template.Validation.Diff.{
  Reports, validate_spec_change-ok, validate_spec_change-Reports, validate_spec_change_wraps,
}
use k8s_operator_template.Status.{new, build, find, set, ConditionBuilder}
use k8s_operator_template.Status.Lookup.{find-set}
use k8s_operator_template.Status.Unique.{IsUnique, set_all, set_all-new-IsUnique}
use k8s_operator_template.Tests.Sample.{fresh}

abbrev three : MyResource
three = fresh (pos 3)

abbrev five : MyResource
five = fresh (pos 5)

abbrev lowest : MyResource
lowest = fresh (negsuc 2147483647)

validate_spec_iff_example :
    (validate_spec three ≡ ok tt) ↔ (InBounds (pos 3) × (len "hello" ≤ 1024))
validate_spec_iff_example = validate_spec_iff three

five_is_ok : validate_spec five ≡ ok tt
unfolding validate_spec
five_is_ok = refl

abbrev two_more : SpecDiff
two_more = record {
  replicas_changed = true;
  replica_delta = pos 2;
  message_changed = false;
  labels_changed = false;
}

two_more_reported : validate_spec_change three five ≡ ok two_more
unfolding validate_spec_change spec_diff sub_i32 ◌-ℤ◌ map_eq
two_more_reported = refl

two_fits : IsI32 (pos 5 -ℤ pos 3)
unfolding ◌-ℤ◌
two_fits = ground arith

validate_spec_change-Reports_example : Reports three five two_more
validate_spec_change-Reports_example =
    validate_spec_change-Reports three five two_more two_fits two_more_reported

abbrev wrapped : SpecDiff
wrapped = spec_diff lowest five (sub_i32 (pos 5) (negsuc 2147483647))

wrapped_reported : validate_spec_change lowest five ≡ ok wrapped
wrapped_reported = validate_spec_change-ok lowest five five_is_ok

validate_spec_change_wraps_example : (negsuc 2147483647 <ℤ pos 5) × (is_scale_down wrapped ≡ true)
validate_spec_change_wraps_example =
    validate_spec_change_wraps lowest five wrapped (ground arith) (ground arith) (omega arith)
      wrapped_reported

abbrev code_404 : ErrorStatus → Bool
code_404 s = s.code == 404

abbrev gone : ErrorStatus
gone = record { code = 404; reason = "NotFound"; message = "no such object" }

sound_404 : (s : ErrorStatus) → code_404 s ≡ true → s.code ≡ 404
sound_404 s h = ground arith

abbrev is_up : Condition
is_up = Condition.ready "noon" true "AllReplicasReady" "up" (some (pos 2))

abbrev is_down : Condition
is_down = Condition.ready "one" false "ReplicasNotReady" "down" (some (pos 2))

set_all-new-IsUnique_example : IsUnique (build (set_all (is_up ∷ is_down ∷ []) new))
set_all-new-IsUnique_example = set_all-new-IsUnique (is_up ∷ is_down ∷ [])

-- A builder with a condition of the type that is written.
abbrev was_up : ConditionBuilder
was_up = set_all (is_up ∷ []) new

find-set_example :
    find (build (set is_down was_up)) "Ready"
    ≡ (if str_eq is_down.type "Ready" then some is_down else find (build was_up) "Ready")
find-set_example = find-set is_down "Ready" was_up
