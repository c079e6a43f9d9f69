-- ===== src/Resources/Readback.antt =====
-- What a pod reads back from the ConfigMap of src/resources/common.rs.
use k8s_operator_template.Prelude.{
  String, ◌≡◌, refl, ◌∙◌, ap, ◌≢◌, Option, none, some, [], str_eq, str_eq_iff, to_string,
  if◌then◌else◌, arith,
}
use mathlib.Core.Option
use k8s_operator_template.Prelude.BTreeMap.{BTreeMap, insert, get, get-insert}
use k8s_operator_template.Prelude.Text.Decimal.{read_int, read_int-to_string}
use k8s_operator_template.Crd.{MyResource}
use k8s_operator_template.Resources.Generate.{generate_configmap}

absent :
    (j k : String) (v : Option String) (rest : Option String)
    → k ≢ j
    → rest ≡ none
    → (if str_eq j k then v else rest) ≡ none
absent j k v rest other h = ground (arith, str_eq_iff j k)

-- The entries as texts, before the numbers are read.
get-entries :
    (replicas message k : String)
    → get k (insert "replicas" replicas (insert "message" message [])) ≡ (
        if str_eq "replicas" k
        then some replicas
        else if str_eq "message" k
        then some message
        else none)
unfolding get
get-entries replicas message k =
    get-insert "replicas" k replicas (insert "message" message [])
    ∙ ap (λ rest. if str_eq "replicas" k then some replicas else rest)
        (get-insert "message" k message [])

-- The ConfigMap of a resource holds its replica count as an optional minus sign and decimal digits
-- alone, which read back give the count for every `i32` and beyond, its message as it is, and
-- nothing under any other key.
pub generate_configmap-reads :
    (obj : MyResource)
    → (entries : BTreeMap) × ((generate_configmap obj).entries ≡ some entries)
      × (Option.map read_int (get "replicas" entries) ≡ some (some obj.spec.replicas))
      × (get "message" entries ≡ some obj.spec.message)
      × ((k : String) → k ≢ "replicas" → k ≢ "message" → get k entries ≡ none)
unfolding generate_configmap
generate_configmap-reads obj =
    let reads = get-entries (to_string obj.spec.replicas) obj.spec.message in
    (
      _,
      refl,
      ap (Option.map read_int) (reads "replicas") ∙ ap some (read_int-to_string obj.spec.replicas),
      reads "message",
      λ k other different.
          reads k ∙ absent "replicas" k _ _ other (absent "message" k _ _ different refl),
    )
