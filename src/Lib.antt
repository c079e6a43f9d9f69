-- ===== src/Lib.antt =====
-- The verification library of the Kubernetes operator my-operator, which keeps a Deployment, a
-- ConfigMap and a Service for each MyResource.
--
-- The parts of the program. `reconcile` (src/controller/reconciler.rs) is called for a resource by
-- kube's controller runtime. It reads the phase in the status, sends requests to the API server
-- through the client of the context (src/controller/context.rs), applies the objects that
-- src/resources/common.rs generates, writes a status with conditions (src/crd/mod.rs), records
-- metrics (src/health.rs), and returns when to come back; `error_policy` answers its errors
-- (src/controller/error.rs). An admission webhook (src/webhooks/server.rs) runs the policies of
-- src/webhooks/policies before a resource is stored. src/main.rs starts the controller once it holds
-- the lease, through src/lib.rs, which watches the resource and its objects, logs the results of the
-- visits and marks the operator as ready; it ends the process when it loses the lease, and on a signal.
-- src/controller/state_machine.rs, src/controller/validation.rs and src/controller/status.rs are
-- library code beside the loop: a transition table with an event chooser, checks of specs and of
-- changes, a builder of conditions.
--
-- The files, each folder with its parent:
--   Prelude        shared names: Boolean tests, ℤ over the native ℕ with the `i32` subtraction, texts
--                  with `format`, `BTreeMap<String, String>` as its sorted list of entries, `Result`
--                  with do blocks, JSON values.
--   Crd            src/crd/mod.rs. The time of a condition is an argument.
--   StateMachine   src/controller/state_machine.rs: Event, Context, Table (the table and the machine)
--                  and Driver (`determine_event`). Graph is the life cycle by rules, Lookup and
--                  Choice relate the look-ups and the chooser to the machine, Runs iterates both.
--   Errors         src/controller/error.rs; Retry classifies.
--   Validation     src/controller/validation.rs; Bounds, Diff and Generation by what they show.
--   Webhooks       src/webhooks: Policies, Server (the handler) and Listener (the route, the server
--                  and its errors). kube's admission types are the parameter `Admission` with the
--                  laws `IsDocumented`; the TLS server is the parameter `Tls`.
--   Status         src/controller/status.rs.
--   Resources      src/resources/common.rs: the Kubernetes types with the fields that are set.
--   Health         src/health.rs: the metrics and the probes; Endpoints has the labels, the registry,
--                  the routes and the server. The metric families are the parameter `Prometheus` with
--                  the laws `IsFamily`; the text encoding and the HTTP server are arguments.
--   Platform       the actions of the controller: `Exec` passes a state with the world, the log of
--                  requests and the shared health state, and returns a result or an error. The API
--                  server and the clock are the parameter `Platform`; Requests lists what is asked
--                  of it. Events is src/controller/context.rs. Contracts (what every run does),
--                  Reaches (what a run that succeeds reaches), Outcomes (how a run ends), Traces and
--                  Emits (what a run sends) are rules for such actions.
--   Reconciler     src/controller/reconciler.rs: Actions (the helpers of the file) and Loop
--                  (`reconcile`, one definition for each arm of its match, and `error_policy`).
--                  Moves and `decide` in Steady.Phases are specifications without the code's
--                  effects, Script.Plan one with the requests and their order. Footprint and Script
--                  hold on every platform, Counts over any visits; Steady and Settles on one that
--                  answers (`IsSteady`); Stale is about a stored object that is newer than the visit's;
--                  Returns about the next visit. Machine compares with the state machine, Agreement
--                  with the webhook.
--   Leadership     src/main.rs: the acquire loop and the renewal task over the sequence of answers of
--                  the lease, one every five seconds.
--   Process        src/main.rs: the main task, and the tasks of the controller, of the renewal, of
--                  the health server and of the webhook server, over a sequence of events in the
--                  order in which they happen. Readiness, Leases and Shutdown by what they show.
--   Controller     src/lib.rs: the sources of the controller, described by the calls that build them,
--                  and the log of its results. Logs and Watches relate both to the reconciler; Schedule
--                  has the steps of the runtime, as kube documents them, on a clock in seconds.
--   Cluster        a resource among users, the API server and the operator. Store states what the API
--                  server documents (`IsStore`), Visit what a visit leaves stored whatever fails, Touch
--                  the same for a visit that sees an older object,
--                  Owned states what server-side apply documents for the owned objects and Provision
--                  what visits leave of them, Rollout follows a change of the spec to them, System has
--                  the steps of the cluster, Lives the steps of a resource's life that users see. A visit
--                  in System sees the resource as it is stored, and the steps of others come between
--                  visits. In Crowd visits see any object, and others act at any time, also between
--                  the requests of a visit.
--   UnitTests      the unit tests in the source files, as Booleans: of src/controller/state_machine.rs,
--                  src/controller/validation.rs, src/webhooks/server.rs, the policies and src/health.rs.
--   Tests          the theorems at concrete inputs, with a platform, families and admission types
--                  that run.
--
-- Numbers. `i32` and `i64` values are ℤ; only `validate_spec_change` computes with them, and its
-- subtraction wraps as in a release build. Every loop of the source is a recursion on a list; the
-- decimal form of a number alone uses fuel, one more than the number, and `read_int` reads it back.
-- A visit of `reconcile` has no loop; repeated visits are the relations `Visits`, `Again`, `Serves`,
-- `Runs` and `Play`.
--
-- Not modelled: the log lines but those of src/lib.rs; serde and the CustomResource derive; what the
-- TLS and HTTP servers, the text encoding of the metrics, the watches and the controller runtime of
-- kube do, which the model only calls; the unit tests of src/health.rs that read that text, and the
-- tests in the folder tests; in src/main.rs the tracing, the creation of the client, and
-- what the operating system does with a signal before `select!` listens for it. These
-- are I/O or belong to libraries.
pub mod Prelude
pub mod Crd
pub mod StateMachine
pub mod Errors
pub mod Validation
pub mod Webhooks
pub mod Status
pub mod Resources
pub mod Health
pub mod Platform
pub mod Reconciler
pub mod Leadership
pub mod Process
pub mod Controller
pub mod Cluster
pub mod UnitTests
pub mod Tests
