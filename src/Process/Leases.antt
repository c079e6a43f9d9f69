-- ===== src/Process/Leases.antt =====
-- The leader election within the process of src/main.rs.
use k8s_operator_template.Prelude.{
  Bool, ◌≡◌, refl, sym, ap, ◌∙◌, ◌≢◌, ◌↔◌, List, [], ◌∷◌, some, arith, true, inl, ◌⊎◌,
}
use k8s_operator_template.Health.{Prometheus}
use k8s_operator_template.Leadership
use k8s_operator_template.Leadership.{
  Attempt, acquired, not_acquired, lease_error, Stage, waiting, leading, exited, Leader, turn,
  election,
}
use k8s_operator_template.Leadership.Elections.{Wins, Drops, election_exits_iff}
use k8s_operator_template.Process.{
  Main, stopped, Event, lease_answer, ends, Process, begin, happen, exit_code, step, run,
  controller, health_server, webhook, renewal, asks, running, ended, electing,
}

-- The answers of the lease among the events.
abbrev pub answers_in : List Event → List Attempt
answers_in [] = []
answers_in (lease_answer a ∷ events) = a ∷ answers_in events
answers_in (_ ∷ events) = answers_in events

module _ (p : Prometheus) where
  abbrev turned : Event → Leader → Leader
  turned (lease_answer a) l = turn a l
  turned _ l = l

  happen_leader :
      (e : Event) (s : Process p)
      → asks p s.main s.renewal ≡ true
      → (happen p e s).leader ≡ turned e s.leader
  unfolding happen
  happen_leader (lease_answer a) s heard = ground arith
  happen_leader (ends controller) s heard = refl
  happen_leader (ends health_server) s heard = refl
  happen_leader (ends webhook) s heard = refl
  happen_leader (ends renewal) s heard = refl
  happen_leader e s heard = ground arith

  exited_turn : (e : Event) (l : Leader) → l.stage ≡ exited → turned e l ≡ l
  unfolding turn
  exited_turn (lease_answer a) l h = ground arith
  exited_turn _ l h = refl

  step_leader :
      (e : Event) (s : Process p)
      → s.main ≢ stopped
      → asks p s.main s.renewal ≡ true
      → (step p e s).leader ≡ turned e s.leader
  unfolding step
  step_leader e s on heard = ground (arith, happen_leader e s heard, exited_turn e s.leader)

  -- The renewal task panicked.
  abbrev IsLost : Process p → Type 0
  IsLost s = (s.main ≢ electing) × (s.renewal ≡ ended)

  -- The main task is in its loop, or the renewal task is at work or was lost.
  abbrev IsStaffed : Process p → Type 0
  IsStaffed s = (s.main ≡ electing) ⊎ (s.renewal ≡ running) ⊎ IsLost s

  step-IsLost : (e : Event) (s : Process p) → IsLost s → IsLost (step p e s)
  unfolding step happen
  step-IsLost (lease_answer a) s lost = ground arith
  step-IsLost (ends job) s lost = ground arith
  step-IsLost e s lost = ground arith

  step-IsStaffed : (e : Event) (s : Process p) → IsStaffed s → IsStaffed (step p e s)
  unfolding step happen
  step-IsStaffed (lease_answer a) s staffed = ground arith
  step-IsStaffed (ends job) s staffed = ground arith
  step-IsStaffed e s staffed = ground arith

  stays_lost : (events : List Event) (s : Process p) → IsLost s → (run p events s).renewal ≡ ended
  unfolding run
  stays_lost [] s lost = lost.1
  stays_lost (e ∷ events) s lost = stays_lost events (step p e s) (step-IsLost e s lost)

  staffed-asks : (s : Process p) → IsStaffed s → ¬ IsLost s → asks p s.main s.renewal ≡ true
  staffed-asks s staffed there = ground arith

  -- The main task does not come back.
  step_stopped : (e : Event) (s : Process p) → s.main ≡ stopped → step p e s ≡ s
  unfolding step
  step_stopped e s h = ground arith

  stays_stopped : (events : List Event) (s : Process p) → s.main ≡ stopped → run p events s ≡ s
  unfolding run
  stays_stopped [] s h = refl
  stays_stopped (e ∷ events) s h = ap (run p events) (step_stopped e s h) ∙ stays_stopped events s h

  still_on :
      (events : List Event) (s : Process p) → (run p events s).main ≢ stopped → s.main ≢ stopped
  still_on events s on h = on (ap (λ (t : Process p). t.main) (stays_stopped events s h) ∙ h)

  answers-turned :
      (e : Event) (events : List Event) (l : Leader)
      → election (answers_in (e ∷ events)) l ≡ election (answers_in events) (turned e l)
  unfolding election
  answers-turned (lease_answer a) events l = refl
  answers-turned _ events l = refl

  run_leader :
      (events : List Event) (s : Process p)
      → IsStaffed s
      → (run p events s).main ≢ stopped
      → (run p events s).renewal ≢ ended
      → (run p events s).leader ≡ election (answers_in events) s.leader
  unfolding run
  run_leader [] s staffed on there = unfold election in refl
  run_leader (e ∷ events) s staffed on there =
      let heard = staffed-asks s staffed (λ lost. there (stays_lost (e ∷ events) s lost)) in
      run_leader events (step p e s) (step-IsStaffed e s staffed) on there
      ∙ ap (election (answers_in events)) (step_leader e s (still_on (e ∷ events) s on) heard)
      ∙ sym (answers-turned e events s.leader)

  exits_iff : (m : Main) (q : Stage) → m ≢ stopped → (exit_code p m q ≡ some 1) ↔ (q ≡ exited)
  exits_iff m q on = ground arith

  -- As long as the main task has not returned and the renewal task has not panicked, whatever else
  -- happens in whatever order, the process is the leader that the election over its lease answers
  -- makes, and it has exited with code 1 exactly when, after an attempt that acquired the lease, a
  -- later one did not.
  pub run-election :
      (cert key : Bool) (events : List Event)
      → let s = run p events (begin p cert key) in
        s.main ≢ stopped
        → s.renewal ≢ ended
        → (s.leader ≡ election (answers_in events) Leadership.start)
          × ((exit_code p s.main s.leader.stage ≡ some 1) ↔ Wins Drops (answers_in events))
  unfolding begin
  run-election cert key events on there =
      let e = run_leader events (begin p cert key) (inl refl) on there in
      let s = run p events (begin p cert key) in
      let exit = exits_iff s.main s.leader.stage on in
      let drops = election_exits_iff (answers_in events) in
      (
        e,
        (
          λ h. drops.0 (sym (ap (λ (l : Leader). l.stage) e) ∙ exit.0 h),
          λ h. exit.1 (ap (λ (l : Leader). l.stage) e ∙ drops.1 h),
        ),
      )
