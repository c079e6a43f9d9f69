-- ===== src/Reconciler/Agreement.antt =====
-- The admission policies of src/webhooks/policies and the check in `reconcile` of
-- src/controller/reconciler.rs.
use k8s_operator_template.Prelude.{true, ◌≡◌, ◌↔◌}
use k8s_operator_template.Prelude.Result.{IsOk}
use k8s_operator_template.Webhooks.Policies.{validate_all}
use k8s_operator_template.Webhooks.Policies.Context.{ValidationContext}
use k8s_operator_template.Webhooks.Policies.Decision.{validate_all_iff}
use k8s_operator_template.Reconciler.Actions.{validate_spec}
use k8s_operator_template.Reconciler.Footprint.Actions.{accepts_iff}

-- The policies admit a resource, created or updated, exactly when the reconciler accepts its spec.
pub validate_all-agrees :
    (ctx : ValidationContext)
    → ((validate_all ctx).allowed ≡ true) ↔ IsOk (validate_spec ctx.resource)
validate_all-agrees ctx = (
  λ h. (accepts_iff ctx.resource).1 ((validate_all_iff ctx).0 h),
  λ h. (validate_all_iff ctx).1 ((accepts_iff ctx.resource).0 h),
)
