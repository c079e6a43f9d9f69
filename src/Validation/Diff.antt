-- ===== src/Validation/Diff.antt =====
-- What an accepted change of spec reports.
use k8s_operator_template.Prelude.{
  ℤ, pos_part, neg_part, ◌<ℤ◌, ◌≤◌, true, false, ◌≡◌, refl, ◌≢◌, ◌+◌, sub_i32_wraps, ◌↔◌, arith,
  eq_iff_ℤ, ◌-ℤ◌, sub_i32, sub_i32_exact, IsI32, str_eq_iff,
}
use k8s_operator_template.Prelude.BTreeMap.{map_eq_iff}
use k8s_operator_template.Prelude.Result.{ok, err}
use k8s_operator_template.Crd.{MyResource}
use k8s_operator_template.Errors.{Error}
use k8s_operator_template.Validation.{
  validate_spec, SpecDiff, spec_diff, validate_spec_change, has_changes, is_scale_only, is_scale_up,
  is_scale_down,
}

-- With an acceptable new spec the change is accepted, whatever the old spec was, and reports
-- the differences, with the wrapped difference of the two counts.
pub validate_spec_change-ok :
    (old new : MyResource)
    → validate_spec new ≡ ok tt
    → validate_spec_change old new
      ≡ ok (spec_diff old new (sub_i32 new.spec.replicas old.spec.replicas))
unfolding validate_spec_change
validate_spec_change-ok old new h = ground arith

-- An error of the new spec is the error of the change.
validate_spec_change-err :
    (old new : MyResource) (e : Error)
    → validate_spec new ≡ err e
    → validate_spec_change old new ≡ err e
unfolding validate_spec_change
validate_spec_change-err old new e h = ground arith

has_changes_iff :
    (old new : MyResource) (delta : ℤ)
    → (has_changes (spec_diff old new delta) ≡ false) ↔ (old.spec ≡ new.spec)
unfolding has_changes spec_diff
has_changes_iff old new delta = ground (
  arith,
  str_eq_iff old.spec.message new.spec.message,
  map_eq_iff old.spec.labels new.spec.labels,
  eq_iff_ℤ old.spec.replicas new.spec.replicas,
)

-- What a report says of the change that it stands for.
pub record Reports (old new : MyResource) (d : SpecDiff) : Type 0 where
  pub delta : d.replica_delta ≡ new.spec.replicas -ℤ old.spec.replicas
  pub scale_up : (is_scale_up d ≡ true) ↔ (old.spec.replicas <ℤ new.spec.replicas)
  pub scale_down : (is_scale_down d ≡ true) ↔ (new.spec.replicas <ℤ old.spec.replicas)
  pub unchanged : (has_changes d ≡ false) ↔ (old.spec ≡ new.spec)
  pub scale_only : (is_scale_only d ≡ true) ↔ (
      (old.spec.replicas ≢ new.spec.replicas)
      × (old.spec.message ≡ new.spec.message)
      × (old.spec.labels ≡ new.spec.labels))

scale_up_iff :
    (old new : MyResource)
    → (is_scale_up (spec_diff old new (new.spec.replicas -ℤ old.spec.replicas)) ≡ true)
      ↔ (old.spec.replicas <ℤ new.spec.replicas)
unfolding is_scale_up spec_diff ◌-ℤ◌
scale_up_iff old new = ground arith

scale_down_iff :
    (old new : MyResource)
    → (is_scale_down (spec_diff old new (new.spec.replicas -ℤ old.spec.replicas)) ≡ true)
      ↔ (new.spec.replicas <ℤ old.spec.replicas)
unfolding is_scale_down spec_diff ◌-ℤ◌
scale_down_iff old new = ground arith

scale_only_iff :
    (old new : MyResource) (delta : ℤ)
    → (is_scale_only (spec_diff old new delta) ≡ true) ↔ (
        (old.spec.replicas ≢ new.spec.replicas)
        × (old.spec.message ≡ new.spec.message)
        × (old.spec.labels ≡ new.spec.labels))
unfolding is_scale_only spec_diff
scale_only_iff old new delta = ground (
  arith,
  str_eq_iff old.spec.message new.spec.message,
  map_eq_iff old.spec.labels new.spec.labels,
  eq_iff_ℤ old.spec.replicas new.spec.replicas,
)

Reports-spec_diff :
    (old new : MyResource)
    → Reports old new (spec_diff old new (new.spec.replicas -ℤ old.spec.replicas))
Reports-spec_diff old new = record {
  delta = unfold spec_diff in refl;
  scale_up = scale_up_iff old new;
  scale_down = scale_down_iff old new;
  unchanged = has_changes_iff old new _;
  scale_only = scale_only_iff old new _;
}

spec_diff_of_ok :
    (old new : MyResource) (d : SpecDiff)
    → validate_spec_change old new ≡ ok d
    → d ≡ spec_diff old new (sub_i32 new.spec.replicas old.spec.replicas)
unfolding validate_spec_change
spec_diff_of_ok old new d h = ground arith

-- Where the difference of the counts fits an `i32`, an accepted change reports it exactly: the
-- delta, the direction of the scaling, whether only the scale changed, and no change exactly when
-- the two specs are equal.
pub validate_spec_change-Reports :
    (old new : MyResource) (d : SpecDiff)
    → IsI32 (new.spec.replicas -ℤ old.spec.replicas)
    → validate_spec_change old new ≡ ok d
    → Reports old new d
validate_spec_change-Reports old new d fits h =
    rw (spec_diff_of_ok old new d h, sub_i32_exact new.spec.replicas old.spec.replicas fits)
      (Reports-spec_diff old new)

-- Where the difference is 2^31 or more, an accepted change that scales up is reported as one that
-- scales down.
pub validate_spec_change_wraps :
    (old new : MyResource) (d : SpecDiff)
    → IsI32 new.spec.replicas
    → IsI32 old.spec.replicas
    → 2147483648 + pos_part old.spec.replicas + neg_part new.spec.replicas
      ≤ pos_part new.spec.replicas + neg_part old.spec.replicas
    → validate_spec_change old new ≡ ok d
    → (old.spec.replicas <ℤ new.spec.replicas) × (is_scale_down d ≡ true)
unfolding is_scale_down spec_diff
validate_spec_change_wraps old new d n o low h = (
  omega arith,
  rw (spec_diff_of_ok old new d h)
      (ground (arith, sub_i32_wraps new.spec.replicas old.spec.replicas)),
)
