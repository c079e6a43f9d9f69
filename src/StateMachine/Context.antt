-- ===== src/StateMachine/Context.antt =====
-- `TransitionContext` of src/controller/state_machine.rs.
use k8s_operator_template.Prelude.{
  ℤ, pos, String, Bool, false, ◌&&◌, Option, none, some, ◌<?◌, ◌≤?◌, ◌=?◌,
}

pub record TransitionContext : Type 0 where
  pub ready_replicas : ℤ  -- i32
  pub desired_replicas : ℤ  -- i32
  pub spec_changed : Bool
  pub error_message : Option String
  pub retry_count : ℤ  -- i32

unfoldable pub new : ℤ → ℤ → TransitionContext
new ready_replicas desired_replicas = record {
  ready_replicas = ready_replicas;
  desired_replicas = desired_replicas;
  spec_changed = false;
  error_message = none;
  retry_count = pos 0;
}

unfoldable pub all_replicas_ready : TransitionContext → Bool
all_replicas_ready ctx =
    (ctx.desired_replicas ≤? ctx.ready_replicas) && (pos 0 <? ctx.desired_replicas)

unfoldable pub is_degraded : TransitionContext → Bool
is_degraded ctx = (pos 0 <? ctx.ready_replicas) && (ctx.ready_replicas <? ctx.desired_replicas)

unfoldable pub no_replicas_ready : TransitionContext → Bool
no_replicas_ready ctx = ctx.ready_replicas =? pos 0

unfoldable pub with_spec_changed : Bool → TransitionContext → TransitionContext
with_spec_changed changed ctx = record ctx { spec_changed = changed }

unfoldable with_error : String → TransitionContext → TransitionContext
with_error message ctx = record ctx { error_message = some message }
