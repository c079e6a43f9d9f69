-- ===== src/Resources/Labels.antt =====
-- The labels that src/resources/common.rs puts on the owned objects.
use k8s_operator_template.Prelude.{
  String, ◌≡◌, refl, subst, ◌∙◌, Bool-cases, inl, inr, Option, none, some, [], ◌∷◌, str_eq,
  str_eq_iff, if◌then◌else◌,
}
use k8s_operator_template.Prelude.BTreeMap.{BTreeMap, insert, get, extend, get-insert}
use k8s_operator_template.Crd.{MyResource}
use k8s_operator_template.Resources.Generate.{
  name_label, managed_by_label, component_label, standard_labels,
}

-- The keys are all different, as they are in a map.
abbrev pub Distinct : BTreeMap → Type 0
Distinct [] = Unit
Distinct ((k, v) ∷ m) = (get k m ≡ none) × Distinct m

-- The value of a user's entry, or else of the map before.
abbrev pub or_else : Option String → Option String → Option String
or_else none o = o
or_else (some v) o = some v

-- A read of a map that was extended: the entries come first.
get-extend :
    (k : String) (m entries : BTreeMap)
    → Distinct entries
    → get k (extend m entries) ≡ or_else (get k entries) (get k m)
unfolding get extend
get-extend k m [] d = refl
get-extend k m ((j, v) ∷ entries) d = elim (Bool-cases (str_eq j k)) [
  | inl same ↦
      let absent : get k entries ≡ none =
        subst (λ i. get i entries ≡ none) ((str_eq_iff j k).0 same) d.0 in
      rw (get-extend k (insert j v m) entries d.1, get-insert j k v m, same, absent)
  | inr differ ↦ rw (get-extend k (insert j v m) entries d.1, get-insert j k v m, differ)
]

-- For user labels with distinct keys: every user label is kept, and each of the operator's three
-- labels has the operator's value exactly where the user gives no other value.
pub get-standard_labels :
    (r : MyResource) (k : String)
    → Distinct r.spec.labels
    → get k (standard_labels r)
      ≡ or_else (get k r.spec.labels) (
          if str_eq component_label k
          then some "myresource"
          else if str_eq managed_by_label k
          then some "my-operator"
          else if str_eq name_label k
          then some r.metadata.name_any
          else none)
unfolding standard_labels get
get-standard_labels r k d =
    get-extend k _ r.spec.labels d
    ∙ rw (
      get-insert component_label k "myresource"
          (insert managed_by_label "my-operator" (insert name_label r.metadata.name_any [])),
      get-insert managed_by_label k "my-operator" (insert name_label r.metadata.name_any []),
      get-insert name_label k r.metadata.name_any [],
    )
