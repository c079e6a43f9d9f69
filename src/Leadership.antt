-- ===== src/Leadership.antt =====
-- The leader election of src/main.rs: the loop that acquires the lease, and the task that renews it
-- while the controller runs. `try_acquire_or_renew` of kube_leader_election is a parameter: a run
-- is over the sequence of its answers, one for each interval of five seconds.
pub mod Elections
use k8s_operator_template.Prelude.{String, Bool, true, false, List, [], ◌∷◌, ◌==◌}

-- An answer: `Acquired`, `NotAcquired`, or an error.
pub data Attempt : Type 0 where
  acquired : Attempt
  not_acquired : Attempt
  lease_error : String → Attempt

-- Where the process is: in the loop, with the controller started, or gone with exit code 1.
pub data Stage : Type 0 where
  waiting leading exited : Stage

pub record Leader : Type 0 where
  pub is_leader : Bool
  pub stage : Stage

unfoldable pub start : Leader
start = record { is_leader = false; stage = waiting }

-- The body of the loop before the controller starts.
unfoldable pub acquire : Attempt → Leader → Leader
acquire acquired l = record { is_leader = true; stage = leading }
acquire not_acquired l = l
acquire (lease_error e) l = l

-- The body of the renewal task.
unfoldable pub renew : Attempt → Leader → Leader
renew acquired l = l
renew not_acquired l = record { is_leader = false; stage = exited }
renew (lease_error e) l = record { is_leader = false; stage = exited }

abbrev in_stage : Stage → Attempt → Leader → Leader
in_stage waiting answer l = acquire answer l
in_stage leading answer l = renew answer l
in_stage exited answer l = l

unfoldable pub turn : Attempt → Leader → Leader
turn answer l = in_stage l.stage answer l

unfoldable pub election : List Attempt → Leader → Leader
election [] l = l
election (answer ∷ answers) l = election answers (turn answer l)
