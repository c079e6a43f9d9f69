-- ===== src/Webhooks/Policies.antt =====
-- src/webhooks/policies/mod.rs: the policies in their tiers.
pub mod Context
pub mod Replicas
pub mod Immutability
pub mod Decision
use k8s_operator_template.Prelude.{not, if◌then◌else◌}
use Context.{ValidationContext, ValidationResult, allowed, is_update}
use Replicas
use Immutability

unfoldable pub validate_all : ValidationContext → ValidationResult
unfolding is_update Replicas.validate Immutability.validate allowed
validate_all ctx =
    let critical = Replicas.validate ctx in
    let update = Immutability.validate ctx in
    if not critical.allowed
    then critical
    else if is_update ctx
    then (if not update.allowed then update else allowed)
    else allowed
