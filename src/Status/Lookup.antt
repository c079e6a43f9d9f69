-- ===== src/Status/Lookup.antt =====
-- Reads of a list of conditions after a write by the builder of src/controller/status.rs.
use k8s_operator_template.Prelude.{
  ℤ, String, Bool, true, false, ◌≡◌, refl, ◌∙◌, Option, some, List, [], ◌∷◌, arith, str_eq,
  str_eq_iff, if◌then◌else◌,
}
use k8s_operator_template.Crd.Condition
use k8s_operator_template.Crd.Condition.{Condition}
use k8s_operator_template.Status.{
  replace_first, set_in, find, is_condition_true, get_condition_reason, ConditionBuilder, set,
  ready, build,
}

pub set_in-cons :
    (c x : Condition) (xs : List Condition)
    → set_in c (x ∷ xs) ≡ (if str_eq x.type c.type then c ∷ xs else x ∷ set_in c xs)
unfolding set_in replace_first
set_in-cons c x xs = ground arith

find-set_in :
    (c : Condition) (t : String) (cs : List Condition)
    → find (set_in c cs) t ≡ (if str_eq c.type t then some c else find cs t)
unfolding find
find-set_in c t [] = unfold set_in replace_first in refl
find-set_in c t (x ∷ xs) = ground (
  arith,
  set_in-cons c x xs,
  find-set_in c t xs,
  str_eq_iff x.type c.type,
  str_eq_iff x.type t,
  str_eq_iff c.type t,
)

-- A read after `set`: of the type that was written the condition that was written, and of any
-- other type the condition that was there before.
pub find-set :
    (c : Condition) (t : String) (b : ConditionBuilder)
    → find (build (set c b)) t ≡ (if str_eq c.type t then some c else find (build b) t)
unfolding set build
find-set c t b = find-set_in c t b.conditions

-- What a list of conditions says after `set`: of the type that was written what the new condition
-- says, and of any other type what it said before.
is_condition_true-set :
    (c : Condition) (t : String) (b : ConditionBuilder)
    → is_condition_true (build (set c b)) t
      ≡ (if str_eq c.type t then str_eq c.status "True" else is_condition_true (build b) t)
unfolding is_condition_true
is_condition_true-set c t b = ground (arith, find-set c t b)

get_condition_reason-set :
    (c : Condition) (t : String) (b : ConditionBuilder)
    → get_condition_reason (build (set c b)) t
      ≡ (if str_eq c.type t then some c.reason else get_condition_reason (build b) t)
unfolding get_condition_reason
get_condition_reason-set c t b = ground (arith, find-set c t b)

ready_is_true :
    (now : String) (flag : Bool) (reason message : String) (generation : Option ℤ)
    → str_eq (Condition.ready now flag reason message generation).status "True" ≡ flag
unfolding Condition.ready
ready_is_true now true reason message generation = refl
ready_is_true now false reason message generation = refl

-- After `ready`, `is_condition_true` of "Ready" is the flag that was given and the reason is the
-- reason that was given; the conditions of the two other types are those of before.
pub ready-reads :
    (now : String) (flag : Bool) (reason message : String) (generation : Option ℤ)
    (b : ConditionBuilder)
    → let r = build (ready now flag reason message generation b) in
      (is_condition_true r "Ready" ≡ flag)
      × (get_condition_reason r "Ready" ≡ some reason)
      × (find r "Progressing" ≡ find (build b) "Progressing")
      × (find r "Degraded" ≡ find (build b) "Degraded")
unfolding ready Condition.ready
ready-reads now flag reason message generation b =
    let c = Condition.ready now flag reason message generation in
    (
      is_condition_true-set c "Ready" b ∙ ready_is_true now flag reason message generation,
      get_condition_reason-set c "Ready" b,
      find-set c "Progressing" b,
      find-set c "Degraded" b,
    )
