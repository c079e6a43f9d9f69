-- ===== src/Webhooks/Policies/Context.antt =====
-- The context and the result of a policy, of src/webhooks/policies/mod.rs.
use k8s_operator_template.Prelude.{String, Bool, true, false, Option, none, some, is_some}
use k8s_operator_template.Crd.{MyResource}

pub record ValidationResult : Type 0 where
  pub allowed : Bool
  pub reason : Option String
  pub message : Option String

unfoldable pub allowed : ValidationResult
allowed = record { allowed = true; reason = none; message = none }

unfoldable pub denied : String → String → ValidationResult
denied reason message = record { allowed = false; reason = some reason; message = some message }

pub record ValidationContext : Type 0 where
  pub resource : MyResource
  pub old_resource : Option MyResource
  pub dry_run : Bool
  pub namespace : Option String

unfoldable pub is_update : ValidationContext → Bool
is_update ctx = is_some ctx.old_resource
