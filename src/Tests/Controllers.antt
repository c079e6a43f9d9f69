-- ===== src/Tests/Controllers.antt =====
-- The theorems on src/lib.rs and on what the controller is told, at concrete inputs.
use k8s_operator_template.Prelude.{pos, String, ◌≡◌, refl, ◌≢◌, none, some, arith}
use mathlib.Core.Option
use k8s_operator_template.Prelude.BTreeMap.{BTreeMap, get}
use k8s_operator_template.Prelude.Text.Decimal.{read_int}
use k8s_operator_template.Crd.{failed}
use k8s_operator_template.Platform.Contracts.{All}
use k8s_operator_template.Resources.Generate.{generate_configmap}
use k8s_operator_template.Resources.Readback.{generate_configmap-reads}
use k8s_operator_template.Reconciler.Loop.{
  reconcile, has_finalizer, progress, next_phase, requeue_duration, finish, error_policy,
}
use k8s_operator_template.Reconciler.Actions.{update_status, check_ready_replicas}
use k8s_operator_template.Platform.Exec.{
  ◌>>=◌, start_timer, send, attempt, call, timestamp, elapsed, with_health,
}
use k8s_operator_template.Reconciler.Returns.{Ends, reconcile-Ends}
use k8s_operator_template.Controller.{run_controller_scoped}
use k8s_operator_template.Controller.Schedule.{
  Timeline, Runs, listed, passes, visits, visited, Due, Runs-Due,
}
use k8s_operator_template.Reconciler.Counts.{settled}
use k8s_operator_template.Controller.Watches.{LeadsBack, reconcile-LeadsBack}
use k8s_operator_template.Tests.Sample.{fresh, in_phase}
use k8s_operator_template.Tests.Platforms.{calm, controller, start_state, families}

reconcile-Ends_example :
    Ends {P = calm (pos 3)} controller
      (in_phase failed)
      (start_state (pos 3))
      (reconcile controller (in_phase failed) (start_state (pos 3)))
reconcile-Ends_example =
    reconcile-Ends {P = calm (pos 3)} controller (in_phase failed) (start_state (pos 3))

reconcile-LeadsBack_example :
    let setup =
      run_controller_scoped families (some "pod-1") (start_state (pos 3)).health (some "apps") in
    All
      (LeadsBack setup.sources (fresh (pos 3)))
      (reconcile setup.context (fresh (pos 3)) (start_state (pos 3))).1.log
reconcile-LeadsBack_example =
    reconcile-LeadsBack {P = calm (pos 3)} (some "pod-1") (some "apps") (fresh (pos 3))
      (start_state (pos 3)) refl tt

generate_configmap-reads_example :
    (entries : BTreeMap) × ((generate_configmap (fresh (pos 10))).entries ≡ some entries)
    × (Option.map read_int (get "replicas" entries) ≡ some (some (pos 10)))
    × (get "message" entries ≡ some "hello")
    × ((k : String) → k ≢ "replicas" → k ≢ "message" → get k entries ≡ none)
generate_configmap-reads_example = generate_configmap-reads (fresh (pos 10))

-- The first list, a visit to a failed resource, and then half of the five minutes.
abbrev waiting : Timeline (calm (pos 3))
waiting = record {
  state =
      settled controller (in_phase failed)
        (reconcile controller (in_phase failed) (start_state (pos 3)));
  clock = 150;
  due = some 300;
}

waited : Runs {P = calm (pos 3)} controller waiting (
    visited
      (in_phase failed)
      (start_state (pos 3))
      (reconcile controller (in_phase failed) (start_state (pos 3))))
unfolding reconcile has_finalizer ◌>>=◌ start_timer progress next_phase requeue_duration send finish
    attempt update_status call timestamp elapsed with_health check_ready_replicas error_policy
waited =
    passes 150 300 (visits (in_phase failed) (listed (start_state (pos 3)) 0) refl) refl
      (omega arith)

Runs-Due_example : Due {P = calm (pos 3)} waiting (
    visited
      (in_phase failed)
      (start_state (pos 3))
      (reconcile controller (in_phase failed) (start_state (pos 3))))
Runs-Due_example = Runs-Due {P = calm (pos 3)} controller waited
