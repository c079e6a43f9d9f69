-- ===== src/Webhooks/Policies/Replicas.antt =====
-- src/webhooks/policies/replicas.rs: the bounds of the replica count.
use k8s_operator_template.Prelude.{[], ◌∷◌, ◌<?◌, format, to_string, if◌then◌else◌}
use k8s_operator_template.Validation.{min_replicas, max_replicas}
use k8s_operator_template.Webhooks.Policies.Context.{
  ValidationContext, ValidationResult, allowed, denied,
}

unfoldable pub validate : ValidationContext → ValidationResult
unfolding allowed denied
validate ctx =
    let replicas = ctx.resource.spec.replicas in
    if replicas <? min_replicas
    then denied "InvalidReplicas" (
        format (
          "spec.replicas must be at least "
          ∷ to_string min_replicas
          ∷ " (got "
          ∷ to_string replicas
          ∷ ")"
          ∷ []))
    else if max_replicas <? replicas
    then denied "InvalidReplicas" (
        format (
          "spec.replicas cannot exceed "
          ∷ to_string max_replicas
          ∷ " (got "
          ∷ to_string replicas
          ∷ ")"
          ∷ []))
    else allowed
