-- ===== src/Webhooks/Policies/Immutability.antt =====
-- src/webhooks/policies/immutability.rs: what an update may not change.
use k8s_operator_template.Prelude.{pos, ◌&&◌, Option, none, some, ◌<?◌, ◌=?◌, if◌then◌else◌}
use k8s_operator_template.Crd.{MyResource}
use k8s_operator_template.Webhooks.Policies.Context.{
  ValidationContext, ValidationResult, allowed, denied,
}

against : Option MyResource → MyResource → ValidationResult
unfolding allowed denied
against none new = allowed
against (some old) new =
    if (pos 0 <? old.spec.replicas) && (new.spec.replicas =? pos 0)
    then denied "InvalidScaleDown"
        "Cannot scale down from a running state to 0 replicas. Delete the resource instead."
    else allowed

unfoldable pub validate : ValidationContext → ValidationResult
unfolding against
validate ctx = against ctx.old_resource ctx.resource
