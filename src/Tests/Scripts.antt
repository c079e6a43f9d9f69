-- ===== src/Tests/Scripts.antt =====
-- Theorems on whole visits of src/controller/reconciler.rs at concrete resources.
use k8s_operator_template.Prelude.{pos, refl}
use k8s_operator_template.Health.{new_health}
use k8s_operator_template.Platform.Outcomes.{Ended}
use k8s_operator_template.Reconciler.Loop.{
  reconcile, has_finalizer, progress, next_phase, from_pending, finish, error_policy,
}
use k8s_operator_template.Reconciler.Actions.{validate_spec, update_status, check_ready_replicas}
use k8s_operator_template.Platform.Exec.{
  ◌>>=◌, start_timer, send, attempt, call, timestamp, elapsed, with_health,
}
use k8s_operator_template.Platform.Events.{publish_normal_event, publish_warning_event}
use k8s_operator_template.Errors.{display}
use k8s_operator_template.Reconciler.Script.Plan.{Follows, Fails}
use k8s_operator_template.Reconciler.Script.Visit.{reconcile-Follows}
use k8s_operator_template.Reconciler.Counts.{Serves, idle, serve, Tallies, Serves-Tallies, settled}
use k8s_operator_template.Health.Counting.{label}
use k8s_operator_template.Tests.Sample.{fresh}
use k8s_operator_template.Tests.Platforms.{
  calm, controller, start_state, families, families-IsFamily,
}
use k8s_operator_template.Tests.Visits.{fresh-IsLive}

reconcile-Follows_example :
    Ended
      (reconcile controller (fresh (pos 11)))
      (start_state (pos 3))
      (Follows {P = calm (pos 3)} controller (fresh (pos 11)) (start_state (pos 3)))
      (Fails {P = calm (pos 3)} controller (fresh (pos 11)) (start_state (pos 3)))
reconcile-Follows_example =
    reconcile-Follows {P = calm (pos 3)} controller (fresh (pos 11)) (start_state (pos 3))
      (fresh-IsLive (pos 11))

-- A visit to a resource with three replicas, and then one to a resource with eleven.

served : Serves {P = calm (pos 3)} controller (label "apps" "demo") (start_state (pos 3)) 1 1 (
    settled controller (fresh (pos 11)) (
      reconcile controller (fresh (pos 11)) (
        settled controller
          (fresh (pos 3))
          (reconcile controller (fresh (pos 3)) (start_state (pos 3))))))
unfolding reconcile has_finalizer ◌>>=◌ start_timer progress next_phase from_pending validate_spec
    publish_normal_event publish_warning_event send finish attempt update_status call timestamp
    elapsed with_health check_ready_replicas error_policy display
served = serve (fresh (pos 11)) (serve (fresh (pos 3)) idle)

Serves-Tallies_example :
    Tallies {P = calm (pos 3)} families-IsFamily controller
      (label "apps" "demo")
      (new_health families)
      1
      1
      (settled controller (fresh (pos 11)) (
        reconcile controller (fresh (pos 11)) (
          settled controller
            (fresh (pos 3))
            (reconcile controller (fresh (pos 3)) (start_state (pos 3))))))
Serves-Tallies_example =
    Serves-Tallies {P = calm (pos 3)} families-IsFamily controller (label "apps" "demo")
      (new_health families) refl served
