-- ===== src/Status/Unique.antt =====
-- The builder of src/controller/status.rs keeps one condition of each type.
use k8s_operator_template.Prelude.{
  String, ◌≡◌, refl, sym, ap, ◌≢◌, inl, inr, List, [], ◌∷◌, arith, str_eq, str_eq_iff, Bool-cases,
}
use k8s_operator_template.Crd.Condition.{Condition}
use k8s_operator_template.Status.{set_in, ConditionBuilder, new, set, build, replace_first}
use k8s_operator_template.Status.Lookup.{set_in-cons}

-- No condition of the list has the type `t`.
abbrev pub Lacks : String → List Condition → Type 0
Lacks t [] = Unit
Lacks t (c ∷ cs) = (c.type ≢ t) × Lacks t cs

-- The types of the conditions are distinct.
abbrev pub IsUnique : List Condition → Type 0
IsUnique [] = Unit
IsUnique (c ∷ cs) = Lacks c.type cs × IsUnique cs

Lacks-set_in :
    (t : String) (c : Condition) (cs : List Condition)
    → c.type ≢ t
    → Lacks t cs
    → Lacks t (set_in c cs)
Lacks-set_in t c [] n h = unfold set_in replace_first in (n, tt)
Lacks-set_in t c (x ∷ xs) n h = elim (Bool-cases (str_eq x.type c.type)) [
  | inl same ↦ rw (set_in-cons c x xs, same) (n, h.1)
  | inr other ↦ rw (set_in-cons c x xs, other) (h.0, Lacks-set_in t c xs n h.1)
]

IsUnique-set_in : (c : Condition) (cs : List Condition) → IsUnique cs → IsUnique (set_in c cs)
IsUnique-set_in c [] h = unfold set_in replace_first in (tt, tt)
IsUnique-set_in c (x ∷ xs) h = elim (Bool-cases (str_eq x.type c.type)) [
  | inl same ↦ rw (set_in-cons c x xs, same) (rw ((str_eq_iff x.type c.type).0 same) at h.0, h.1)
  | inr other ↦
      rw (set_in-cons c x xs, other)
        (
          Lacks-set_in x.type c xs (λ e. cc ((str_eq_iff x.type c.type).1 (sym e))) h.0,
          IsUnique-set_in c xs h.1,
        )
]

-- The conditions that a builder holds after a sequence of writes to a new one.
abbrev pub set_all : List Condition → ConditionBuilder → ConditionBuilder
set_all [] b = b
set_all (c ∷ cs) b = set_all cs (set c b)

set_all-IsUnique :
    (cs : List Condition) (b : ConditionBuilder)
    → IsUnique (build b)
    → IsUnique (build (set_all cs b))
unfolding set build
set_all-IsUnique [] b h = h
set_all-IsUnique (c ∷ cs) b h = set_all-IsUnique cs (set c b) (IsUnique-set_in c b.conditions h)

-- Whatever is written to a new builder, the conditions that it builds have distinct types.
pub set_all-new-IsUnique : (cs : List Condition) → IsUnique (build (set_all cs new))
unfolding new build
set_all-new-IsUnique cs = set_all-IsUnique cs new tt

set_in-nil : (c : Condition) → set_in c [] ≡ c ∷ []
unfolding set_in replace_first
set_in-nil c = refl

set_in-set_in :
    (c d : Condition) (cs : List Condition) → d.type ≡ c.type → set_in d (set_in c cs) ≡ set_in d cs
set_in-set_in c d [] e =
    ground (arith, set_in-nil c, set_in-nil d, set_in-cons d c [], str_eq_iff c.type d.type)
set_in-set_in c d (x ∷ xs) e = ground (
  arith,
  set_in-cons c x xs,
  set_in-cons d x xs,
  set_in-cons d c xs,
  set_in-cons d x (set_in c xs),
  set_in-set_in c d xs e,
  str_eq_iff x.type c.type,
  str_eq_iff x.type d.type,
  str_eq_iff c.type d.type,
)

-- Of two writes of one type the later stands, as if the earlier had not been.
pub set-set : (c d : Condition) (b : ConditionBuilder) → d.type ≡ c.type → set d (set c b) ≡ set d b
unfolding set
set-set c d b e = ap (λ cs. record { conditions = cs }) (set_in-set_in c d b.conditions e)
