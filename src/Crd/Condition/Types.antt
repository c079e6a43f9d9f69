-- ===== src/Crd/Condition/Types.antt =====
-- `condition_types` of src/crd/mod.rs.
use k8s_operator_template.Prelude.{String}

abbrev pub ready : String
ready = "Ready"

abbrev pub progressing : String
progressing = "Progressing"

abbrev pub degraded : String
degraded = "Degraded"

abbrev configuration_valid : String
configuration_valid = "ConfigurationValid"
