-- ===== src/Tests/Processes.antt =====
-- The theorems on the process of src/main.rs at concrete runs.
use k8s_operator_template.Prelude.{
  true, false, ◌≡◌, refl, ◌≢◌, ◌⊎◌, ◌↔◌, none, some, List, [], ◌∷◌, ◌++◌,
}
use k8s_operator_template.Webhooks.Server.{ok_200}
use k8s_operator_template.Health.{readyz}
use k8s_operator_template.Leadership
use k8s_operator_template.Leadership.{acquired, not_acquired, lease_error, leading, election, turn}
use k8s_operator_template.Leadership.Elections.{Wins, Holds, Drops}
use k8s_operator_template.Process.{
  Process, Event, lease_answer, controller_begins, ends, health_server, shutdown_signal, grace_over,
  queued, running, ended, serving, stopped, begin, run, step, happen, on_lease, enter, exit_code,
}
use k8s_operator_template.Process.Readiness.{readyz-leads, readyz-shutdown}
use k8s_operator_template.Process.Shutdown.{run-ends}
use k8s_operator_template.Process.Leases.{answers_in, run-election}
use k8s_operator_template.Tests.Platforms.{families}

abbrev wins_lease : List Event
wins_lease = lease_answer not_acquired ∷ lease_answer acquired ∷ []

-- The process serves, and the controller has not had its first turn.
abbrev just_leading : Process families
just_leading = run families wins_lease (begin families true true)

abbrev at_work : List Event
at_work = lease_answer not_acquired ∷ lease_answer acquired ∷ controller_begins ∷ []

abbrev working : Process families
working = run families at_work (begin families true true)

just_leading_serving : just_leading.main ≡ serving
unfolding begin run step happen on_lease enter turn Leadership.acquire Leadership.start
just_leading_serving = refl

just_leading_leads : just_leading.leader.stage ≡ leading
unfolding begin run step happen on_lease enter turn Leadership.acquire Leadership.start
just_leading_leads = refl

just_leading_queued : just_leading.controller ≡ queued
unfolding begin run step happen on_lease enter turn Leadership.acquire Leadership.start
just_leading_queued = refl

working_serving : working.main ≡ serving
unfolding begin run step happen on_lease enter turn Leadership.acquire Leadership.start
working_serving = refl

working_leads : working.leader.stage ≡ leading
unfolding begin run step happen on_lease enter turn Leadership.acquire Leadership.start
working_leads = refl

working_runs : working.controller ≡ running
unfolding begin run step happen on_lease enter turn Leadership.acquire Leadership.start
working_runs = refl

working_ready : (readyz families working.health).0 ≡ ok_200
unfolding begin run step happen on_lease enter turn Leadership.acquire Leadership.start readyz
working_ready = refl

working_alive : exit_code families working.main working.leader.stage ≡ none
working_alive = rw (working_serving, working_leads) refl

readyz-leads_example :
    ((working.renewal ≡ ended) ⊎ Wins Holds (answers_in at_work))
    × ((working.controller ≡ running) ⊎ (working.controller ≡ ended))
readyz-leads_example = readyz-leads families true true at_work working_ready working_alive

not_queued : working.controller ≢ queued
not_queued h = cc (working_runs, h)

readyz-shutdown_example :
    (readyz families
      (run families
        (shutdown_signal ∷ lease_answer acquired ∷ controller_begins ∷ grace_over ∷ [])
        working).health).0
    ≢ ok_200
readyz-shutdown_example =
    readyz-shutdown families working (lease_answer acquired ∷ controller_begins ∷ grace_over ∷ [])
      working_serving working_leads not_queued

-- The lease is lost while the controller works.
abbrev loses_lease : List Event
loses_lease =
    lease_answer acquired
    ∷ controller_begins
    ∷ ends health_server
    ∷ lease_answer (lease_error "timeout")
    ∷ []

abbrev lost : Process families
lost = run families loses_lease (begin families true false)

lost_serving : lost.main ≡ serving
unfolding begin run step happen on_lease enter turn Leadership.acquire Leadership.renew
    Leadership.start
lost_serving = refl

lost_on : lost.main ≢ stopped
lost_on h = cc (lost_serving, h)

lost_renewal : lost.renewal ≡ running
unfolding begin run step happen on_lease enter turn Leadership.acquire Leadership.renew
    Leadership.start
lost_renewal = refl

lost_there : lost.renewal ≢ ended
lost_there h = cc (lost_renewal, h)

run-election_example :
    (lost.leader ≡ election (answers_in loses_lease) Leadership.start)
    × ((exit_code families lost.main lost.leader.stage ≡ some 1)
        ↔ Wins Drops (answers_in loses_lease))
run-election_example = run-election families true false loses_lease lost_on lost_there

-- The lease is lost in the grace period.
abbrev shut_down : Process families
shut_down =
    run families
      (shutdown_signal ∷ (ends health_server ∷ lease_answer not_acquired ∷ []) ++ (grace_over ∷ []))
      working

run-ends_example :
    (exit_code families shut_down.main shut_down.leader.stage ≡ some 0)
    ⊎ (exit_code families shut_down.main shut_down.leader.stage ≡ some 1)
run-ends_example =
    run-ends families working (ends health_server ∷ lease_answer not_acquired ∷ []) working_serving
      working_leads
