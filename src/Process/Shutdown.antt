-- ===== src/Process/Shutdown.antt =====
-- The end of the process of src/main.rs after a signal.
use k8s_operator_template.Prelude.{◌≡◌, refl, ◌⊎◌, List, [], ◌∷◌, ◌++◌, some, arith}
use k8s_operator_template.Health.{Prometheus}
use k8s_operator_template.Leadership.{leading}
use k8s_operator_template.Process.{
  serving, draining, stopped, Event, lease_answer, ends, shutdown_signal, grace_over, Process,
  happen, exit_code, step, run, controller, health_server, webhook, renewal,
}

module _ (p : Prometheus) where
  abbrev IsLate : Process p → Type 0
  IsLate s = (s.main ≡ draining) ⊎ (s.main ≡ stopped)

  step-IsLate : (e : Event) (s : Process p) → IsLate s → IsLate (step p e s)
  unfolding step happen
  step-IsLate (lease_answer a) s late = ground arith
  step-IsLate (ends controller) s late = ground arith
  step-IsLate (ends health_server) s late = ground arith
  step-IsLate (ends webhook) s late = ground arith
  step-IsLate (ends renewal) s late = ground arith
  step-IsLate e s late = ground arith

  run-IsLate : (events : List Event) (s : Process p) → IsLate s → IsLate (run p events s)
  unfolding run
  run-IsLate [] s late = late
  run-IsLate (e ∷ events) s late = run-IsLate events (step p e s) (step-IsLate e s late)

  run-++ :
      (events more : List Event) (s : Process p)
      → run p (events ++ more) s ≡ run p more (run p events s)
  unfolding run
  run-++ [] more s = refl
  run-++ (e ∷ events) more s = run-++ events more (step p e s)

  grace_ends :
      (s : Process p)
      → IsLate s
      → (exit_code p (step p grace_over s).main (step p grace_over s).leader.stage ≡ some 0)
        ⊎ (exit_code p (step p grace_over s).main (step p grace_over s).leader.stage ≡ some 1)
  unfolding step happen
  grace_ends s late = ground arith

  signal-IsLate :
      (s : Process p)
      → s.main ≡ serving
      → s.leader.stage ≡ leading
      → IsLate (step p shutdown_signal s)
  unfolding step happen
  signal-IsLate s at leads = ground arith

  -- Once a signal reaches a serving process that leads, the process is over by the end of the grace
  -- period, with exit code 0 or 1, whatever happens in between.
  pub run-ends :
      (s : Process p) (events : List Event)
      → s.main ≡ serving
      → s.leader.stage ≡ leading
      → let t = run p (shutdown_signal ∷ events ++ (grace_over ∷ [])) s in
        (exit_code p t.main t.leader.stage ≡ some 0) ⊎ (exit_code p t.main t.leader.stage ≡ some 1)
  unfolding run
  run-ends s events at leads =
      let after = run p events (step p shutdown_signal s) in
      rw (run-++ events (grace_over ∷ []) (step p shutdown_signal s))
        (grace_ends after (run-IsLate events (step p shutdown_signal s) (signal-IsLate s at leads)))
