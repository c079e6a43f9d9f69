-- ===== src/Platform/Events.antt =====
-- src/controller/context.rs: the context of the controller and its events. A failure to publish is
-- logged and goes no further.
use k8s_operator_template.Prelude.{String, Option}
use k8s_operator_template.Crd.{MyResource}
use k8s_operator_template.Platform.Requests.{Platform, normal, warning, Reporter, publish}
use k8s_operator_template.Platform.Exec.{Exec, pure, send, ◌>>=◌}

abbrev pub field_manager : String
field_manager = "my-operator"

-- The client and the health state of the context are parts of the state of an action.
pub record Context : Type 0 where
  pub reporter : Reporter

-- `pod_name` is the environment variable POD_NAME.
unfoldable pub new : Option String → Context
new pod_name = record { reporter = record { controller = field_manager; instance_name = pod_name } }

module _ {P : Platform} where
  unfoldable pub publish_normal_event :
      Context → MyResource → String → String → Option String → Exec P (Unit {0})
  publish_normal_event ctx resource reason action note = do
    r ← send (
        publish ctx.reporter
          (record { type = normal; reason = reason; note = note; action = action }) resource)
    pure tt

  unfoldable pub publish_warning_event :
      Context → MyResource → String → String → Option String → Exec P (Unit {0})
  publish_warning_event ctx resource reason action note = do
    r ← send (
        publish ctx.reporter
          (record { type = warning; reason = reason; note = note; action = action }) resource)
    pure tt
