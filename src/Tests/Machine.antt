-- ===== src/Tests/Machine.antt =====
-- The theorems on src/controller/state_machine.rs at concrete observations.
use k8s_operator_template.Prelude.{pos, true, false, ◌≡◌, refl, inl, inr, ◌↔◌, [], ◌∷◌}
use k8s_operator_template.Crd.{pending, creating, running, degraded}
use k8s_operator_template.StateMachine.Event.{all_replicas_ready}
use k8s_operator_template.StateMachine.Context
use k8s_operator_template.StateMachine.Context.{TransitionContext}
use k8s_operator_template.StateMachine.Table.{new, transition}
use k8s_operator_template.StateMachine.Graph.{Arrives, Edge, Claim, transition-Arrives_iff}
use k8s_operator_template.StateMachine.Runs.{
  Observation, run, IsHealthy, IsUnderway, run_recovers, run_pending_stuck,
}

abbrev all_three : TransitionContext
all_three = Context.new (pos 3) (pos 3)

abbrev two_of_three : TransitionContext
two_of_three = Context.new (pos 2) (pos 3)

abbrev healthy : Observation
healthy = record { context = all_three; deleted = false }

healthy-IsHealthy : IsHealthy healthy
unfolding Context.new Context.all_replicas_ready
healthy-IsHealthy = record { ready = refl; applied = refl; kept = refl }

healthy_ready : Context.all_replicas_ready all_three ≡ true
unfolding Context.new Context.all_replicas_ready
healthy_ready = refl

transition-Arrives_iff_example :
    Arrives
      (transition new creating all_replicas_ready two_of_three)
      creating
      all_replicas_ready
      running
    ↔ (Edge creating all_replicas_ready running × Claim all_replicas_ready two_of_three)
transition-Arrives_iff_example =
    transition-Arrives_iff creating running all_replicas_ready two_of_three

run_pending_stuck_example : run pending (healthy ∷ healthy ∷ []) ≡ pending
run_pending_stuck_example =
    run_pending_stuck (healthy ∷ healthy ∷ []) ((healthy_ready, refl), ((healthy_ready, refl), tt))

degraded-IsUnderway : IsUnderway degraded
degraded-IsUnderway = inr (inr (inl refl))

run_recovers_example : run degraded (healthy ∷ healthy ∷ []) ≡ running
run_recovers_example =
    run_recovers degraded healthy (healthy ∷ []) degraded-IsUnderway
      (healthy-IsHealthy, (healthy-IsHealthy, tt))
