-- ===== src/Validation/Generation.antt =====
-- The generation test of src/controller/validation.rs.
use k8s_operator_template.Prelude.{true, ◌≡◌, ◌≢◌, ◌↔◌, none, arith}
use k8s_operator_template.Crd.{MyResource}
use k8s_operator_template.Validation.{observed_generation, generation_changed}

-- The test is true exactly when there is a current generation and it is not the observed one.
generation_changed_iff :
    (r : MyResource)
    → (generation_changed r ≡ true)
      ↔ ((r.metadata.generation ≢ none) × (r.metadata.generation ≢ observed_generation r.status))
unfolding generation_changed
generation_changed_iff r = ground arith
