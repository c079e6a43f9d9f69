-- ===== src/Validation.antt =====
-- src/controller/validation.rs: the checks of a spec and of a change of spec. Log lines are left
-- out; the test that decides whether a large scale-down is logged is `warns_large_scale_down`.
pub mod Bounds
pub mod Diff
pub mod Generation
use Prim.Native.String.{len}
use k8s_operator_template.Prelude.{
  ℤ, pos, ℕ, ◌/◌, pos_part, String, Bool, true, false, not, ◌&&◌, ◌||◌, Option, none, some, List,
  [], ◌∷◌, ◌<?◌, ◌=?◌, ltb, sub_i32, str_eq, format, to_string, if◌then◌else◌,
}
use k8s_operator_template.Prelude.BTreeMap.{map_eq}
use k8s_operator_template.Prelude.Result.{Result, ok, err, ◌>>=◌, ◌>>◌}
use k8s_operator_template.Crd.{MyResource, MyResourceStatus}
use k8s_operator_template.Errors.{Error, validation}

abbrev pub min_replicas : ℤ
min_replicas = pos 1

abbrev pub max_replicas : ℤ
max_replicas = pos 10

unfoldable pub validate_replicas : MyResource → Result (Unit {0}) Error
validate_replicas resource =
    let replicas = resource.spec.replicas in
    if replicas <? min_replicas
    then err (
        validation (
          format (
            "replica count "
            ∷ to_string replicas
            ∷ " is below minimum "
            ∷ to_string min_replicas
            ∷ [])))
    else if max_replicas <? replicas
    then err (
        validation (
          format (
            "replica count "
            ∷ to_string replicas
            ∷ " exceeds maximum "
            ∷ to_string max_replicas
            ∷ [])))
    else ok tt

-- `String::len` counts bytes.
unfoldable validate_message : MyResource → Result (Unit {0}) Error
validate_message resource =
    if ltb 1024 (len resource.spec.message)
    then err (validation "message exceeds maximum length of 1024 characters")
    else ok tt

unfoldable pub validate_spec : MyResource → Result (Unit {0}) Error
unfolding validate_replicas validate_message
validate_spec resource = do validate_replicas resource; validate_message resource; ok tt

pub record SpecDiff : Type 0 where
  pub replicas_changed : Bool
  pub replica_delta : ℤ  -- i32
  pub message_changed : Bool
  pub labels_changed : Bool

unfoldable pub requires_update : SpecDiff → Bool
requires_update d = d.replicas_changed || d.message_changed || d.labels_changed

unfoldable pub is_scale_only : SpecDiff → Bool
is_scale_only d = d.replicas_changed && not d.message_changed && not d.labels_changed

unfoldable pub has_changes : SpecDiff → Bool
has_changes d = d.replicas_changed || d.message_changed || d.labels_changed

unfoldable pub is_scale_up : SpecDiff → Bool
is_scale_up d = d.replicas_changed && (pos 0 <? d.replica_delta)

unfoldable pub is_scale_down : SpecDiff → Bool
is_scale_down d = d.replicas_changed && (d.replica_delta <? pos 0)

unfoldable validate_scale_down : MyResource → MyResource → Result (Unit {0}) Error
validate_scale_down old new =
    let new_replicas = new.spec.replicas in
    if new_replicas <? min_replicas
    then err (
        validation (
          format (
            "cannot scale down to "
            ∷ to_string new_replicas
            ∷ " replicas, minimum is "
            ∷ to_string min_replicas
            ∷ [])))
    else ok tt

-- The test `old_replicas > 2 && delta > old_replicas / 2`; the quotient is that of a positive
-- number.
unfoldable warns_large_scale_down : MyResource → MyResource → Bool
warns_large_scale_down old new =
    let old_replicas = old.spec.replicas in
    let delta = sub_i32 old_replicas new.spec.replicas in
    (pos 2 <? old_replicas) && (pos (pos_part old_replicas / 2) <? delta)

unfoldable pub spec_diff : MyResource → MyResource → ℤ → SpecDiff
spec_diff old new replica_delta = record {
  replicas_changed = not (old.spec.replicas =? new.spec.replicas);
  replica_delta = replica_delta;
  message_changed = not (str_eq old.spec.message new.spec.message);
  labels_changed = not (map_eq old.spec.labels new.spec.labels);
}

-- The `i32` subtraction wraps, as it does in a release build.
unfoldable pub validate_spec_change : MyResource → MyResource → Result SpecDiff Error
unfolding validate_spec validate_scale_down spec_diff
validate_spec_change old new = do
  validate_spec new
  let replica_delta = sub_i32 new.spec.replicas old.spec.replicas
  (if replica_delta <? pos 0 then validate_scale_down old new else ok tt)
  ok (spec_diff old new replica_delta)

-- `resource.status.as_ref().and_then(|s| s.observed_generation)`
abbrev pub observed_generation : Option MyResourceStatus → Option ℤ
observed_generation none = none
observed_generation (some s) = s.observed_generation

generations_differ : Option ℤ → Option ℤ → Bool
generations_differ (some current_gen) (some obs) = not (current_gen =? obs)
generations_differ (some current_gen) none = true
generations_differ none _ = false

unfoldable pub generation_changed : MyResource → Bool
unfolding generations_differ
generation_changed resource =
    generations_differ resource.metadata.generation (observed_generation resource.status)
