-- ===== src/Controller/Logs.antt =====
-- The log of src/lib.rs beside the answers of `error_policy`.
use k8s_operator_template.Prelude.{String, Bool, ◌≡◌, ◌≢◌, ◌↔◌, arith}
use k8s_operator_template.Prelude.Result.{err}
use k8s_operator_template.Errors.{Error, ErrorStatus}
use k8s_operator_template.Reconciler.Actions.{await_change}
use k8s_operator_template.Reconciler.Loop.{error_action}
use k8s_operator_template.Controller.{
  RuntimeError, reconciler_failed, debug_level, error_level, is_gone, log_result,
}

module _ (status_not_found : ErrorStatus → Bool) (show : RuntimeError → String) where
  -- Whatever the API server's not-found test is: the failure of a visit is logged as an error
  -- exactly when `error_policy` asks for another visit after it, and otherwise at debug level.
  pub log_result-error_action :
      (e : Error) (object : String)
      → let line = log_result status_not_found show (err (reconciler_failed e object)) in
        ((line.level ≡ error_level) ↔ (error_action status_not_found e ≢ await_change))
        × ((line.level ≡ debug_level) ↔ (error_action status_not_found e ≡ await_change))
  unfolding log_result error_action is_gone
  log_result-error_action e object = ground arith
