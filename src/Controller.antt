-- ===== src/Controller.antt =====
-- src/lib.rs: what `run_controller` sets up, and what it logs of each result. The streams and the
-- runtime are those of `kube`: a stream is described by the calls that build it, and a result of
-- the runtime is a value, with the text of its `Debug` a parameter.
pub mod Logs
pub mod Watches
pub mod Schedule
use k8s_operator_template.Prelude.{
  String, Bool, true, false, Option, none, some, List, [], ◌∷◌, ◌++◌, map, format, if◌then◌else◌,
}
use mathlib.Core.Option
use k8s_operator_template.Prelude.Result.{Result, ok, err}
use k8s_operator_template.Errors.{Error, ErrorStatus, is_not_found}
use k8s_operator_template.Health.{Prometheus, HealthState, set_ready}
use k8s_operator_template.Platform.Events
use k8s_operator_template.Platform.Events.{Context}

-- `Api::all` and `Api::namespaced`.
pub data Scope : Type 0 where
  everywhere : Scope
  within : String → Scope

unfoldable pub scoped_api : Option String → Scope
scoped_api (some ns) = within ns
scoped_api none = everywhere

-- kube's `MostRecent`, the default, and `Any`.
pub data ListSemantic : Type 0 where
  most_recent any_version : ListSemantic

-- kube's configuration of a watcher, with the field that the code sets.
pub record WatcherConfig : Type 0 where
  pub list_semantic : ListSemantic

unfoldable pub default_watcher_config : WatcherConfig
default_watcher_config = record { list_semantic = any_version }

-- The kinds of objects.
pub data Kind : Type 0 where
  my_resource deployment service config_map : Kind

-- What is called on a stream of watch events.
pub data Stage : Type 0 where
  into_reflector default_backoff applied_objects touched_objects filter_generation : Stage

-- A stream: of whole objects (`watcher`) or of their metadata (`metadata_watcher`), with the calls
-- on it in their order.
pub record Watch : Type 0 where
  pub kind : Kind
  pub scope : Scope
  pub config : WatcherConfig
  pub whole : Bool
  pub stages : List Stage

unfoldable pub create_filtered_stream : Kind → Scope → WatcherConfig → Watch
create_filtered_stream kind api watcher_config = record {
  kind = kind;
  scope = api;
  config = watcher_config;
  whole = true;
  stages = into_reflector ∷ default_backoff ∷ applied_objects ∷ filter_generation ∷ [];
}

-- `metadata_watcher(…).touched_objects()`
abbrev pub metadata_stream : Kind → Scope → WatcherConfig → Watch
metadata_stream kind api watcher_config = record {
  kind = kind;
  scope = api;
  config = watcher_config;
  whole = false;
  stages = touched_objects ∷ [];
}

-- What is called on the builder of the controller.
pub data Source : Type 0 where
  for_stream : Watch → Source
  owns : Kind → Scope → WatcherConfig → Source
  owns_stream : Watch → Source

-- The controller before it runs, and the health state that it shares.
pub record Setup (p : Prometheus) : Type 0 where
  pub health : Option (HealthState p)
  pub context : Context
  pub sources : List Source

unfoldable pub sources_in : Scope → List Source
unfolding create_filtered_stream default_watcher_config
sources_in api =
    let watcher_config = default_watcher_config in
    for_stream (create_filtered_stream my_resource api watcher_config)
    ∷ owns deployment api watcher_config
    ∷ owns_stream (metadata_stream service api watcher_config)
    ∷ owns_stream (metadata_stream config_map api watcher_config)
    ∷ []

-- `pod_name` is the environment variable that `Context::new` reads.
unfoldable pub run_controller_scoped :
    (p : Prometheus) → Option String → Option (HealthState p) → Option String → Setup p
unfolding sources_in scoped_api set_ready
run_controller_scoped p pod_name health_state namespace = record {
  health = Option.map (set_ready p true) health_state;
  context = Events.new pod_name;
  sources = sources_in (scoped_api namespace);
}

unfoldable pub run_controller : (p : Prometheus) → Option String → Option (HealthState p) → Setup p
unfolding run_controller_scoped
run_controller p pod_name health_state = run_controller_scoped p pod_name health_state none

-- `kube::runtime::controller::Error`, as far as the code tells it apart: the object is no longer in
-- the reflector's store, `reconcile` failed for the object, or another error.
pub data RuntimeError : Type 0 where
  object_not_found : String → RuntimeError
  reconciler_failed : Error → String → RuntimeError
  other_failure : String → RuntimeError

pub data Level : Type 0 where
  debug_level error_level : Level

pub record LogLine : Type 0 where
  pub level : Level
  pub text : String

-- Whether the object no longer exists.
unfoldable pub is_gone : (ErrorStatus → Bool) → RuntimeError → Bool
unfolding is_not_found
is_gone status_not_found (object_not_found object) = true
is_gone status_not_found (reconciler_failed e object) = is_not_found status_not_found e
is_gone status_not_found (other_failure text) = false

module _ (status_not_found : ErrorStatus → Bool) (show : RuntimeError → String) where
  -- The log line of a result: the name of the object that was visited, or an error.
  unfoldable pub log_result : Result String RuntimeError → LogLine
  unfolding is_gone
  log_result (ok name) = record { level = debug_level; text = format ("Reconciled: " ∷ name ∷ []) }
  log_result (err e) =
      if is_gone status_not_found e
      then record {
        level = debug_level;
        text = format ("Object no longer exists (likely deleted): " ∷ show e ∷ []);
      }
      else record { level = error_level; text = format ("Reconciliation error: " ∷ show e ∷ []) }

  -- The log lines of a run over its results, with the last one, which comes when the stream ends.
  unfoldable pub log_results : List (Result String RuntimeError) → List LogLine
  unfolding log_result
  log_results results =
      map log_result results
      ++ (record { level = error_level; text = "Controller stream ended unexpectedly" } ∷ [])
