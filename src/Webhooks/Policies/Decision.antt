-- ===== src/Webhooks/Policies/Decision.antt =====
-- What the policies of src/webhooks/policies decide.
use k8s_operator_template.Prelude.{true, false, ◌≡◌, ◌↔◌, ◌≢◌, none, some, arith}
use k8s_operator_template.Validation.Bounds.{InBounds}
use k8s_operator_template.Webhooks.Policies.{validate_all}
use k8s_operator_template.Webhooks.Policies.Context.{ValidationContext}
use k8s_operator_template.Webhooks.Policies.Replicas

-- A request passes the policies exactly when its replica count lies in 1..10, on a create and on an
-- update alike.
pub validate_all_iff :
    (ctx : ValidationContext)
    → ((validate_all ctx).allowed ≡ true) ↔ InBounds ctx.resource.spec.replicas
unfolding validate_all
validate_all_iff ctx = ground arith

-- The second tier decides nothing: the answer is always that of the first.
pub validate_all-eq-replicas : (ctx : ValidationContext) → validate_all ctx ≡ Replicas.validate ctx
unfolding validate_all
validate_all-eq-replicas ctx = ground arith

-- A denial carries the reason InvalidReplicas and a message.
validate_all_denied :
    (ctx : ValidationContext)
    → (validate_all ctx).allowed ≡ false
    → ((validate_all ctx).reason ≡ some "InvalidReplicas") × ((validate_all ctx).message ≢ none)
unfolding validate_all
validate_all_denied ctx h = ground arith
