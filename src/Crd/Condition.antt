-- ===== src/Crd/Condition.antt =====
-- `Condition` of src/crd/mod.rs, its constructors, and `condition_types` in the child.
pub mod Types
use k8s_operator_template.Prelude.{ℤ, String, Bool, Option, if◌then◌else◌}

pub record Condition : Type 0 where
  pub type : String
  pub status : String
  pub reason : String
  pub message : String
  pub last_transition_time : String
  pub observed_generation : Option ℤ  -- i64

-- `now` is the text of `jiff::Timestamp::now()`.
unfoldable pub new : String → String → Bool → String → String → Option ℤ → Condition
new now condition_type status reason message generation = record {
  type = condition_type;
  status = if status then "True" else "False";
  reason = reason;
  message = message;
  last_transition_time = now;
  observed_generation = generation;
}

unfoldable pub ready : String → Bool → String → String → Option ℤ → Condition
unfolding new
ready now is_ready reason message generation = new now "Ready" is_ready reason message generation

unfoldable pub progressing : String → Bool → String → String → Option ℤ → Condition
unfolding new
progressing now is_progressing reason message generation =
    new now "Progressing" is_progressing reason message generation

unfoldable pub degraded : String → Bool → String → String → Option ℤ → Condition
unfolding new
degraded now is_degraded reason message generation =
    new now "Degraded" is_degraded reason message generation
