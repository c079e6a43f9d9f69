-- ===== src/Reconciler/Generations.antt =====
-- The two tests for a changed spec: the one in `reconcile` of src/controller/reconciler.rs and the
-- one of src/controller/validation.rs.
use k8s_operator_template.Prelude.{true, ◌≡◌, ◌≢◌, ◌↔◌, none, arith}
use k8s_operator_template.Crd.{MyResource}
use k8s_operator_template.Validation.{observed_generation, generation_changed}
use k8s_operator_template.Reconciler.Loop.{spec_changed}

-- The test in `reconcile` is true exactly when the two generations differ.
spec_changed_iff :
    (obj : MyResource)
    → (spec_changed obj ≡ true) ↔ (observed_generation obj.status ≢ obj.metadata.generation)
unfolding spec_changed
spec_changed_iff obj = ground arith

-- The two tests agree exactly when it is not the case that a generation was observed and there is
-- none now.
pub spec_changed-eq-generation_changed_iff :
    (obj : MyResource)
    → (spec_changed obj ≡ generation_changed obj)
      ↔ ¬ ((obj.metadata.generation ≡ none) × (observed_generation obj.status ≢ none))
unfolding spec_changed generation_changed
spec_changed-eq-generation_changed_iff obj = ground arith
