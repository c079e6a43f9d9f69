-- ===== src/Process/Readiness.antt =====
-- When the process of src/main.rs says that it is ready.
use k8s_operator_template.Prelude.{
  String, Bool, true, false, ◌≡◌, refl, sym, ap, ◌∙◌, ◌≢◌, ◌⊎◌, inl, inr, List, [], ◌∷◌, ℕ, Option,
  none, some, arith,
}
use k8s_operator_template.Controller.{run_controller}
use k8s_operator_template.Webhooks.Server.{ok_200}
use k8s_operator_template.Health.{Prometheus, readyz}
use k8s_operator_template.Leadership
use k8s_operator_template.Leadership.{
  Attempt, acquired, not_acquired, lease_error, Stage, waiting, leading, exited, turn, Leader,
}
use k8s_operator_template.Leadership.Elections.{Wins, Holds, election_leads_iff}
use k8s_operator_template.Process.Leases.{answers_in, run-election}
use k8s_operator_template.Process.{
  begun, electing, serving, draining, stopped, unstarted, queued, running, ended, controller,
  health_server, webhook, renewal, Event, lease_answer, controller_begins, ends, joins,
  shutdown_signal, grace_over, Task, Process, begin, happen, exit_code, unless_over, step, run,
}

module _ (p : Prometheus) where
  -- The controller's first turn changes the health state as `run_controller` does.
  begun-run_controller :
      (variable : Option String) (s : Process p)
      → s.controller ≡ queued
      → (run_controller p variable (some s.health)).health ≡ some (begun p s.controller s).health
  unfolding run_controller
  begun-run_controller variable s h = rw h refl

  -- What holds before an event and after it holds after the step.
  unless_over-rule :
      (Q : Process p → Type 0) (code : Option ℕ) (s s' : Process p)
      → Q s
      → Q s'
      → Q (unless_over p code s s')
  unless_over-rule Q none s s' h h' = h'
  unless_over-rule Q (some code) s s' h h' = h

  -- The controller is started only with the lease, and the operator is marked as ready only by a
  -- controller that had its first turn.
  pub record IsOrderly (s : Process p) : Type 0 where
    pub wait :
        s.main ≡ electing
        → (s.leader.stage ≡ waiting) × (s.controller ≡ unstarted) × (s.health.ready ≡ false)
    pub lead : (s.main ≡ electing) ⊎ (s.leader.stage ≡ leading) ⊎ (s.leader.stage ≡ exited)
    pub ready : s.health.ready ≡ true → (s.controller ≡ running) ⊎ (s.controller ≡ ended)

  begin-IsOrderly : (cert key : Bool) → IsOrderly (begin p cert key)
  unfolding begin
  begin-IsOrderly cert key = record {
    wait = λ h. (refl, refl, refl);
    lead = inl refl;
    ready = λ h. cc;
  }

  happen-IsOrderly : (e : Event) (s : Process p) → IsOrderly s → IsOrderly (happen p e s)
  unfolding happen turn Leadership.acquire Leadership.renew
  happen-IsOrderly (lease_answer acquired) s o = ground arith
  happen-IsOrderly (lease_answer not_acquired) s o = ground arith
  happen-IsOrderly (lease_answer (lease_error e)) s o = ground arith
  happen-IsOrderly controller_begins s o = ground arith
  happen-IsOrderly (ends controller) s o = ground arith
  happen-IsOrderly (ends health_server) s o = ground arith
  happen-IsOrderly (ends webhook) s o = ground arith
  happen-IsOrderly (ends renewal) s o = ground arith
  happen-IsOrderly (joins job) s o = ground arith
  happen-IsOrderly shutdown_signal s o = ground arith
  happen-IsOrderly grace_over s o = ground arith

  step-IsOrderly : (e : Event) (s : Process p) → IsOrderly s → IsOrderly (step p e s)
  unfolding step
  step-IsOrderly e s o = unless_over-rule IsOrderly _ s (happen p e s) o (happen-IsOrderly e s o)

  run-IsOrderly : (events : List Event) (s : Process p) → IsOrderly s → IsOrderly (run p events s)
  unfolding run
  run-IsOrderly [] s o = o
  run-IsOrderly (e ∷ events) s o = run-IsOrderly events (step p e s) (step-IsOrderly e s o)

  ready_means :
      (s : Process p)
      → IsOrderly s
      → (readyz p s.health).0 ≡ ok_200
      → exit_code p s.main s.leader.stage ≡ none
      → (s.leader.stage ≡ leading) × ((s.controller ≡ running) ⊎ (s.controller ≡ ended))
  unfolding readyz
  ready_means s o h alive = ground arith

  not_stopped : (s : Process p) → exit_code p s.main s.leader.stage ≡ none → s.main ≢ stopped
  not_stopped s alive h = ground arith

  ended_cases : (t : Task) → (t ≡ ended) ⊎ (t ≢ ended)
  ended_cases t = ground arith

  -- Whatever happens in whatever order, while the process is not over the readiness probe answers
  -- 200 only if the controller has begun and, unless the renewal task has panicked, the answers of
  -- the lease so far are some that did not acquire it, one that did, and none since that did not.
  pub readyz-leads :
      (cert key : Bool) (events : List Event)
      → let s = run p events (begin p cert key) in
        (readyz p s.health).0 ≡ ok_200
        → exit_code p s.main s.leader.stage ≡ none
        → ((s.renewal ≡ ended) ⊎ Wins Holds (answers_in events))
          × ((s.controller ≡ running) ⊎ (s.controller ≡ ended))
  readyz-leads cert key events h alive =
      let s = run p events (begin p cert key) in
      let (leads, begun) =
        ready_means s (run-IsOrderly events (begin p cert key) (begin-IsOrderly cert key)) h
          alive in
      (
        elim (ended_cases s.renewal) [
          | inl lost ↦ inl lost
          | inr there ↦
              let e = (run-election p cert key events (not_stopped s alive) there).0 in
              inr (
                (election_leads_iff (answers_in events)).0
                  (sym (ap (λ (l : Leader). l.stage) e) ∙ leads))
        ],
        begun,
      )

  -- Shutting down, and not ready.
  pub record IsClosed (s : Process p) : Type 0 where
    pub late : (s.main ≡ draining) ⊎ (s.main ≡ stopped)
    pub begun : s.controller ≢ queued
    pub unready : s.health.ready ≡ false

  happen-IsClosed : (e : Event) (s : Process p) → IsClosed s → IsClosed (happen p e s)
  unfolding happen
  happen-IsClosed (lease_answer answer) s c = ground arith
  happen-IsClosed (ends job) s c = ground arith
  happen-IsClosed e s c = ground arith

  run-IsClosed : (events : List Event) (s : Process p) → IsClosed s → IsClosed (run p events s)
  unfolding run step
  run-IsClosed [] s c = c
  run-IsClosed (e ∷ events) s c =
      run-IsClosed events _ (unless_over-rule IsClosed _ s (happen p e s) c (happen-IsClosed e s c))

  signal-IsClosed :
      (s : Process p)
      → s.main ≡ serving
      → s.leader.stage ≡ leading
      → s.controller ≢ queued
      → IsClosed (step p shutdown_signal s)
  unfolding step happen
  signal-IsClosed s at leads taken = ground arith

  unready_probe : (s : Process p) → s.health.ready ≡ false → (readyz p s.health).0 ≢ ok_200
  unfolding readyz
  unready_probe s h = ground arith

  -- Once a signal reaches a serving process whose controller has begun, the readiness probe never
  -- answers 200 again, whatever happens after.
  pub readyz-shutdown :
      (s : Process p) (events : List Event)
      → s.main ≡ serving
      → s.leader.stage ≡ leading
      → s.controller ≢ queued
      → (readyz p (run p (shutdown_signal ∷ events) s).health).0 ≢ ok_200
  unfolding readyz run step happen
  readyz-shutdown s events at leads taken h =
      let c = run-IsClosed events (step p shutdown_signal s) (signal-IsClosed s at leads taken) in
      unready_probe (run p events (step p shutdown_signal s)) c.unready h
