-- ===== src/Tests/Visits.antt =====
-- The theorems on src/controller/reconciler.rs at concrete resources, on a platform that runs.
use k8s_operator_template.Prelude.{ℤ, pos, true, false, ◌≡◌, refl, ◌≢◌, ◌⊎◌, some, [], ◌∷◌, arith}
use mathlib.Core.Option
use k8s_operator_template.Crd.{pending, running, degraded, failed, deleting}
use k8s_operator_template.Errors.{ErrorStatus, transient, from_secs}
use k8s_operator_template.Validation.Bounds.{InBounds}
use k8s_operator_template.Health.{new_health}
use k8s_operator_template.Platform.Contracts.{All}
use k8s_operator_template.Platform.Reaches.{Reaches}
use k8s_operator_template.Reconciler.Actions.{requeue}
use k8s_operator_template.Reconciler.Loop.{requeue_duration, reconcile, error_policy, has_finalizer}
use k8s_operator_template.Reconciler.Steady.Gauges.{Gauges, reconcile-Gauges}
use k8s_operator_template.Reconciler.Moves.{IsLive, Allowed}
use k8s_operator_template.Reconciler.Footprint.{reconcile-Allowed}
use k8s_operator_template.Reconciler.Machine.{Confirms, IsRejected, decide-Confirms}
use k8s_operator_template.Reconciler.Policy.{Answers, failed_visit, error_policy-Answers}
use k8s_operator_template.Reconciler.Settles.{
  Leads, repeated, reconcile-settles, reconcile-stays_failed,
}
use k8s_operator_template.Reconciler.Steady.Phases.{decide}
use k8s_operator_template.Reconciler.Steady.Visit.{Visited, reconcile-Visited}
use k8s_operator_template.Tests.Sample.{fresh, in_phase, unclaimed}
use k8s_operator_template.Tests.Platforms.{
  calm, calm-IsSteady, controller, start_state, deployment_with, families, families-IsFamily,
}

pub fresh-IsLive : (n : ℤ) → IsLive (fresh n)
unfolding has_finalizer
fresh-IsLive n = record { kept = refl; claimed = refl }

failed-IsLive : IsLive (in_phase failed)
unfolding has_finalizer
failed-IsLive = record { kept = refl; claimed = refl }

pub three_fits : InBounds (pos 3)
three_fits = ground arith

reconcile-Allowed_example :
    All (Allowed (fresh (pos 3))) (reconcile controller (fresh (pos 3)) (start_state (pos 3))).1.log
reconcile-Allowed_example =
    reconcile-Allowed {P = calm (pos 3)} controller (fresh (pos 3)) (start_state (pos 3)) tt

reconcile-Visited_example : Reaches (reconcile controller (fresh (pos 3))) (start_state (pos 3)) (
    Visited {P = calm (pos 3)} controller
      (fresh (pos 3))
      (fresh (pos 3))
      (deployment_with (pos 3))
      (calm-IsSteady (pos 3) (fresh (pos 3)))
      (start_state (pos 3))
      (decide (fresh (pos 3)) (pos 3) pending))
reconcile-Visited_example =
    reconcile-Visited {P = calm (pos 3)} controller (fresh (pos 3)) (fresh (pos 3))
      (deployment_with (pos 3)) (calm-IsSteady (pos 3) (fresh (pos 3))) (start_state (pos 3))
      (fresh-IsLive (pos 3)) (λ _. three_fits)

reconcile-Gauges_example :
    Gauges {P = calm (pos 3)} families-IsFamily
      (fresh (pos 3))
      (pos 3)
      (new_health families)
      (reconcile controller (fresh (pos 3)) (start_state (pos 3)))
reconcile-Gauges_example =
    reconcile-Gauges {P = calm (pos 3)} families-IsFamily controller (fresh (pos 3)) (fresh (pos 3))
      (deployment_with (pos 3)) (calm-IsSteady (pos 3) (fresh (pos 3))) (start_state (pos 3))
      (new_health families) (record { ready_replicas = some (pos 3) }) (pos 3)
      (fresh-IsLive (pos 3)) (λ _. three_fits) refl refl refl

pub not_claimed : has_finalizer unclaimed.metadata.finalizers ≡ false
unfolding has_finalizer
not_claimed = refl

degraded_moves : decide (in_phase degraded) (pos 3) degraded ≢ degraded
unfolding decide
degraded_moves h = cc

decide-Confirms_example :
    Confirms (in_phase degraded) (pos 3) degraded (decide (in_phase degraded) (pos 3) degraded)
    ⊎ IsRejected (in_phase degraded) (pos 3) degraded (decide (in_phase degraded) (pos 3) degraded)
decide-Confirms_example =
    decide-Confirms (in_phase degraded) (pos 3) degraded three_fits degraded_moves

sound_404 : (s : ErrorStatus) → (calm (pos 3)).status_not_found s ≡ true → s.code ≡ 404
sound_404 s h = ground arith

error_policy-Answers_example :
    Answers
      (calm (pos 3)).status_not_found
      (transient "busy")
      (error_policy controller (fresh (pos 3)) (transient "busy") (start_state (pos 3))).0
    × ((error_policy controller (fresh (pos 3)) (transient "busy") (start_state (pos 3))).1.health
        ≡ Option.map
            (failed_visit (calm (pos 3)).prometheus (fresh (pos 3)))
            (start_state (pos 3)).health)
    × ((error_policy controller (fresh (pos 3)) (transient "busy") (start_state (pos 3))).1.log
        ≡ (start_state (pos 3)).log)
    × ((error_policy controller (fresh (pos 3)) (transient "busy") (start_state (pos 3))).1.world
        ≡ (start_state (pos 3)).world)
error_policy-Answers_example =
    error_policy-Answers {P = calm (pos 3)} controller (fresh (pos 3)) (transient "busy")
      (start_state (pos 3)) sound_404

pending_not_failed : pending ≢ failed
pending_not_failed h = cc

pending_not_deleting : pending ≢ deleting
pending_not_deleting h = cc

reconcile-settles_example :
    Leads {P = calm (pos 3)} controller
      (fresh (pos 3))
      (start_state (pos 3))
      (requeue (from_secs 10) ∷ requeue (from_secs 60) ∷ [])
      running
unfolding decide requeue_duration
reconcile-settles_example =
    reconcile-settles {P = calm (pos 3)} controller (fresh (pos 3)) (deployment_with (pos 3))
      (fresh (pos 3)) (start_state (pos 3)) (calm-IsSteady (pos 3) (fresh (pos 3)))
      (fresh-IsLive (pos 3)) refl three_fits refl pending_not_failed pending_not_deleting

reconcile-stays_failed_example :
    Leads {P = calm (pos 3)} controller
      (in_phase failed)
      (start_state (pos 3))
      (repeated 4 (requeue (from_secs 300)))
      failed
reconcile-stays_failed_example =
    reconcile-stays_failed {P = calm (pos 3)} controller (fresh (pos 3)) (deployment_with (pos 3)) 4
      (in_phase failed) (start_state (pos 3)) (calm-IsSteady (pos 3) (in_phase failed))
      failed-IsLive refl
