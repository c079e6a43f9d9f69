-- ===== src/Reconciler/Steady/Refused.antt =====
-- A visit of src/controller/reconciler.rs to a pending resource whose spec is out of bounds.
use k8s_operator_template.Platform.Requests.{Platform}
