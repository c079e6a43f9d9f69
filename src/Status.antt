-- ===== src/Status.antt =====
-- src/controller/status.rs: the builder of a list of conditions, and reads of such a list.
pub mod Lookup
pub mod Unique
use k8s_operator_template.Prelude.{
  ℤ, String, Bool, false, Option, none, some, List, [], ◌∷◌, ◌++◌, str_eq, if◌then◌else◌,
}
use mathlib.Core.Option
use k8s_operator_template.Crd.Condition
use k8s_operator_template.Crd.Condition.{Condition}

pub record ConditionBuilder : Type 0 where
  pub conditions : List Condition

unfoldable pub new : ConditionBuilder
new = record { conditions = [] }

-- `iter_mut().find(…)` with the assignment through the reference that it returns.
unfoldable pub replace_first : Condition → List Condition → Option (List Condition)
replace_first condition [] = none
replace_first condition (c ∷ cs) =
    let rest = Option.map (λ cs'. c ∷ cs') (replace_first condition cs) in
    if str_eq c.type condition.type then some (condition ∷ cs) else rest

unfoldable pub set_in : Condition → List Condition → List Condition
set_in condition conditions = elim (replace_first condition conditions) [
  | some replaced ↦ replaced
  | none ↦ conditions ++ condition ∷ []
]

unfoldable pub set : Condition → ConditionBuilder → ConditionBuilder
set condition b = record { conditions = set_in condition b.conditions }

-- `now` is the time at which the condition is made.
unfoldable pub ready :
    String → Bool → String → String → Option ℤ → ConditionBuilder → ConditionBuilder
unfolding set
ready now is_ready reason message generation b =
    set (Condition.ready now is_ready reason message generation) b

unfoldable pub progressing :
    String → Bool → String → String → Option ℤ → ConditionBuilder → ConditionBuilder
unfolding set
progressing now is_progressing reason message generation b =
    set (Condition.progressing now is_progressing reason message generation) b

unfoldable pub degraded :
    String → Bool → String → String → Option ℤ → ConditionBuilder → ConditionBuilder
unfolding set
degraded now is_degraded reason message generation b =
    set (Condition.degraded now is_degraded reason message generation) b

unfoldable pub build : ConditionBuilder → List Condition
build b = b.conditions

-- `conditions.iter().find(|c| c.r#type == condition_type)`
unfoldable pub find : List Condition → String → Option Condition
find [] condition_type = none
find (c ∷ cs) condition_type =
    if str_eq c.type condition_type then some c else find cs condition_type

unfoldable pub is_condition_true : List Condition → String → Bool
is_condition_true conditions condition_type = elim (find conditions condition_type) [
  | some c ↦ str_eq c.status "True"
  | none ↦ false
]

unfoldable pub get_condition_reason : List Condition → String → Option String
get_condition_reason conditions condition_type =
    Option.map (λ c. c.reason) (find conditions condition_type)
