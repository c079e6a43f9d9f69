-- ===== src/Resources/Selection.antt =====
-- Whether the selectors that src/resources/common.rs generates select the pods that it generates.
use k8s_operator_template.Prelude.{
  String, ◌≡◌, refl, ◌↔◌, ◌⊎◌, inl, inr, Option, none, some, [], arith, ap, sym, ◌∙◌, subst,
  str_eq_iff,
}
use k8s_operator_template.Prelude.BTreeMap.{BTreeMap, insert, get}
use k8s_operator_template.Crd.{MyResource}
use k8s_operator_template.Resources.Types.{Deployment, Service}
use k8s_operator_template.Resources.Generate.{
  name_label, name_selector, standard_labels, generate_deployment, generate_service,
}
use k8s_operator_template.Resources.Labels.{Distinct, or_else, get-standard_labels}

-- Kubernetes' selection by labels: every pair of the selector is among the labels.
abbrev pub Selects : BTreeMap → BTreeMap → Type 0
Selects selector labels = (k v : String) → get k selector ≡ some v → get k labels ≡ some v

abbrev map_or_empty : Option BTreeMap → BTreeMap
map_or_empty none = []
map_or_empty (some m) = m

abbrev pub selector_of : Deployment → BTreeMap
selector_of d = elim d.spec [ none ↦ [] | some spec ↦ map_or_empty spec.match_labels ]

abbrev pub pod_labels_of : Deployment → BTreeMap
pod_labels_of d = elim d.spec [ none ↦ [] | some spec ↦ map_or_empty spec.template.labels ]

abbrev pub service_selector_of : Service → BTreeMap
service_selector_of s = elim s.spec [ none ↦ [] | some spec ↦ map_or_empty spec.selector ]

-- The user leaves the name label alone, or gives it the value that it has anyway.
abbrev pub KeepsName : MyResource → Type 0
KeepsName r =
    (get name_label r.spec.labels ≡ none)
    ⊎ (get name_label r.spec.labels ≡ some r.metadata.name_any)

name_selected :
    (r : MyResource)
    → Distinct r.spec.labels
    → get name_label (standard_labels r)
      ≡ or_else (get name_label r.spec.labels) (some r.metadata.name_any)
name_selected r d = get-standard_labels r name_label d

one_pair : (r : MyResource) → get name_label (name_selector r) ≡ some r.metadata.name_any
unfolding name_selector insert get
one_pair r = refl

only_pair :
    (r : MyResource) (k v : String)
    → get k (name_selector r) ≡ some v
    → (name_label ≡ k) × (r.metadata.name_any ≡ v)
unfolding name_selector insert get
only_pair r k v h = ground (arith, str_eq_iff name_label k)

keeps :
    (o : Option String) (name : String)
    → or_else o (some name) ≡ some name
    → (o ≡ none) ⊎ (o ≡ some name)
keeps none name h = inl refl
keeps (some v) name h = inr h

kept :
    (o : Option String) (name : String)
    → (o ≡ none) ⊎ (o ≡ some name)
    → or_else o (some name) ≡ some name
kept none name h = refl
kept (some v) name (inr h) = h
kept (some v) name (inl h) = cc

standard-Selects_iff :
    (r : MyResource)
    → Distinct r.spec.labels
    → Selects (name_selector r) (standard_labels r) ↔ KeepsName r
standard-Selects_iff r d = (
  λ h. keeps _ _ (sym (name_selected r d) ∙ h name_label r.metadata.name_any (one_pair r)),
  λ h k v e.
      let (same, named) = only_pair r k v e in
      subst (λ j. get j (standard_labels r) ≡ some v) same
        (name_selected r d ∙ kept _ _ h ∙ ap some named),
)

-- For user labels with distinct keys: the deployment's selector selects its own pods, and the
-- service's selector selects the deployment's pods, exactly when the user labels give the name
-- label no value or the resource's name.
pub generated-Selects_iff :
    (r : MyResource)
    → Distinct r.spec.labels
    → (Selects (selector_of (generate_deployment r)) (pod_labels_of (generate_deployment r))
        ↔ KeepsName r)
      × (Selects (service_selector_of (generate_service r)) (pod_labels_of (generate_deployment r))
          ↔ KeepsName r)
unfolding generate_deployment generate_service
generated-Selects_iff r d = (standard-Selects_iff r d, standard-Selects_iff r d)
