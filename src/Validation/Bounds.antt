-- ===== src/Validation/Bounds.antt =====
-- Which specs src/controller/validation.rs accepts.
use Prim.Native.String.{len}
use k8s_operator_template.Prelude.{ℤ, ◌≤ℤ◌, ◌≤◌, ◌≡◌, ◌↔◌, arith}
use k8s_operator_template.Prelude.Result.{ok, IsOk}
use k8s_operator_template.Crd.{MyResource}
use k8s_operator_template.Validation.{min_replicas, max_replicas, validate_replicas, validate_spec}

-- A replica count that the operator supports.
abbrev pub InBounds : ℤ → Type 0
InBounds n = (min_replicas ≤ℤ n) × (n ≤ℤ max_replicas)

validate_replicas_iff : (r : MyResource) → IsOk (validate_replicas r) ↔ InBounds r.spec.replicas
unfolding validate_replicas
validate_replicas_iff r = ground arith

-- A spec is accepted exactly when its replica count lies in 1..10 and its message has at most 1024
-- bytes.
pub validate_spec_iff :
    (r : MyResource)
    → (validate_spec r ≡ ok tt) ↔ (InBounds r.spec.replicas × (len r.spec.message ≤ 1024))
unfolding validate_spec
validate_spec_iff r = ground arith
