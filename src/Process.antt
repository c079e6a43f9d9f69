-- ===== src/Process.antt =====
-- src/main.rs: the operator's process. The main task elects, then serves, and on a signal drains;
-- the lease renewal, the controller (`run_controller` of src/lib.rs), the health server and the
-- webhook server are tasks beside it. A run is a sequence of events in the order in which they
-- happen.
pub mod Readiness
pub mod Leases
pub mod Shutdown
use k8s_operator_template.Prelude.{
  ℕ, String, Bool, true, false, ◌&&◌, Option, none, some, List, [], ◌∷◌, unwrap_or, if◌then◌else◌,
}
use k8s_operator_template.Errors.{Duration, from_secs}
use k8s_operator_template.Health.{Prometheus, HealthState, new_health, set_ready}
use k8s_operator_template.Leadership
use k8s_operator_template.Leadership.{Attempt, Stage, waiting, leading, exited, Leader, turn}

abbrev pub lease_name : String
lease_name = "my-operator-leader"

abbrev pub lease_ttl_secs : ℕ
lease_ttl_secs = 15

abbrev pub lease_renew_interval_secs : ℕ
lease_renew_interval_secs = 5

abbrev pub shutdown_grace_period_secs : ℕ
shutdown_grace_period_secs = 5

-- The variable POD_NAME, else the host's name if it can be read, else "unknown".
unfoldable pub pod_name : Option String → Option String → String
pod_name variable hostname = unwrap_or variable (unwrap_or hostname "unknown")

-- The variable POD_NAMESPACE, else "default".
unfoldable pub pod_namespace : Option String → String
pod_namespace variable = unwrap_or variable "default"

pub record LeaseLockParams : Type 0 where
  pub holder_id : String
  pub lease_name : String
  pub lease_ttl : Duration

-- Both locks, that of the acquire loop and that of the renewal task, have these parameters.
unfoldable pub lease_lock_params : String → LeaseLockParams
lease_lock_params holder = record {
  holder_id = holder;
  lease_name = lease_name;
  lease_ttl = from_secs lease_ttl_secs;
}

-- The main task: in the acquire loop, in `select!`, in the grace period, at its end.
pub data Main : Type 0 where
  electing serving draining stopped : Main

-- A task: not started, started and waiting for its first turn, at work, ended.
pub data Task : Type 0 where
  unstarted queued running ended : Task

-- The tasks whose end `select!` waits for. The renewal task has no end but a panic.
pub data Job : Type 0 where
  controller health_server webhook renewal : Job

pub data Event : Type 0 where
  lease_answer : Attempt → Event
  controller_begins : Event
  ends : Job → Event
  joins : Job → Event
  shutdown_signal : Event
  grace_over : Event

pub record Process (p : Prometheus) : Type 0 where
  pub certificates : Bool  -- both files exist
  pub leader : Leader
  pub health : HealthState p
  pub main : Main
  pub controller : Task
  pub health_server : Task
  pub webhook : Task
  pub renewal : Task

-- `cert_path.exists() && key_path.exists()`
unfoldable has_certificates : Bool → Bool → Bool
has_certificates cert key = cert && key

module _ (p : Prometheus) where
  -- With the existence of the certificate's and of the key's file, which is looked up later.
  unfoldable pub begin : Bool → Bool → Process p
  unfolding new_health Leadership.start has_certificates
  begin cert key = record {
    certificates = has_certificates cert key;
    leader = Leadership.start;
    health = new_health p;
    main = electing;
    controller = unstarted;
    health_server = running;
    webhook = unstarted;
    renewal = unstarted;
  }

  -- What follows the acquire loop: the tasks are started, and `select!` is entered.
  unfoldable pub enter : Process p → Process p
  enter s = record s {
    main = serving;
    controller = queued;
    webhook = if s.certificates then running else unstarted;
    renewal = running;
  }

  -- After an answer of the lease: the main task leaves its loop when it leads.
  abbrev pub elected : Main → Stage → Process p → Process p
  elected electing leading s = enter s
  elected _ _ s = s

  -- Whether somebody asks for the lease: the main task in its loop, and the renewal task.
  abbrev pub asks : Main → Task → Bool
  asks electing _ = true
  asks _ running = true
  asks _ _ = false

  unfoldable pub on_lease : Attempt → Process p → Process p
  unfolding enter
  on_lease answer s =
      if asks s.main s.renewal
      then (let leader = turn answer s.leader in
          elected s.main leader.stage (record s { leader = leader }))
      else s

  -- The first turn of `run_controller`, which marks the operator as ready.
  abbrev pub begun : Task → Process p → Process p
  begun queued s = record s { controller = running; health = set_ready p true s.health }
  begun _ s = s

  abbrev pub end_of : Task → Task
  end_of running = ended
  end_of t = t

  abbrev pub on_end : Job → Process p → Process p
  on_end controller s = record s { controller = end_of s.controller }
  on_end health_server s = record s { health_server = end_of s.health_server }
  on_end webhook s = record s { webhook = end_of s.webhook }
  on_end renewal s = record s { renewal = end_of s.renewal }

  abbrev pub task_of : Job → Process p → Task
  task_of controller s = s.controller
  task_of health_server s = s.health_server
  task_of webhook s = s.webhook
  task_of renewal s = s.renewal

  -- A branch of `select!` on the end of a task.
  abbrev pub joined : Main → Task → Process p → Process p
  joined serving ended s = record s { main = stopped }
  joined _ _ s = s

  -- The branch of `select!` on the signal.
  abbrev pub signalled : Main → Process p → Process p
  signalled serving s = record s { main = draining; health = set_ready p false s.health }
  signalled _ s = s

  abbrev pub drained : Main → Process p → Process p
  drained draining s = record s { main = stopped }
  drained _ s = s

  unfoldable pub happen : Event → Process p → Process p
  unfolding on_lease set_ready
  happen (lease_answer answer) s = on_lease answer s
  happen controller_begins s = begun s.controller s
  happen (ends job) s = on_end job s
  happen (joins job) s = joined s.main (task_of job s) s
  happen shutdown_signal s = signalled s.main s
  happen grace_over s = drained s.main s

  -- The process is over when the main task has returned, with exit code 0, or the renewal task has
  -- called `exit(1)`.
  abbrev pub exit_code : Main → Stage → Option ℕ
  exit_code stopped _ = some 0
  exit_code _ exited = some 1
  exit_code _ _ = none

  abbrev pub unless_over : Option ℕ → Process p → Process p → Process p
  unless_over none s s' = s'
  unless_over (some code) s s' = s

  unfoldable pub step : Event → Process p → Process p
  unfolding happen
  step e s = unless_over (exit_code s.main s.leader.stage) s (happen e s)

  unfoldable pub run : List Event → Process p → Process p
  run [] s = s
  run (e ∷ events) s = run events (step e s)
