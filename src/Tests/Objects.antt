-- ===== src/Tests/Objects.antt =====
-- The theorems on src/resources/common.rs and src/health.rs at concrete inputs.
use k8s_operator_template.Prelude.{pos, refl, ◌↔◌}
use k8s_operator_template.Prelude.BTreeMap.{get}
use k8s_operator_template.Crd.{MyResource}
use k8s_operator_template.Resources.Generate.{generate_deployment, generate_service}
use k8s_operator_template.Resources.Labels.{Distinct}
use k8s_operator_template.Resources.Selection.{
  Selects, selector_of, pod_labels_of, service_selector_of, KeepsName, generated-Selects_iff,
}
use k8s_operator_template.Tests.Sample.{fresh, user_labels}

abbrev three : MyResource
three = fresh (pos 3)

user_labels-Distinct : Distinct user_labels
unfolding get
user_labels-Distinct = (refl, tt)

generated-Selects_iff_example :
    (Selects (selector_of (generate_deployment three)) (pod_labels_of (generate_deployment three))
      ↔ KeepsName three)
    × (Selects
          (service_selector_of (generate_service three))
          (pod_labels_of (generate_deployment three))
        ↔ KeepsName three)
generated-Selects_iff_example = generated-Selects_iff three user_labels-Distinct
