-- ===== src/Tests/Platforms.antt =====
-- Metric families and a platform that can be run, for src/health.rs and
-- src/controller/reconciler.rs.
use k8s_operator_template.Prelude.{
  ℕ, suc, ◌+◌, ℤ, pos, Bool, true, false, ◌≡◌, refl, ◌≢◌, ◌&&◌, none, some, Option, [], arith,
  str_eq, str_eq_iff, ◌==◌, if◌then◌else◌,
}
use k8s_operator_template.Prelude.Result.{Result, ok}
use k8s_operator_template.Crd.{MyResource}
use k8s_operator_template.Errors.{KubeError}
use k8s_operator_template.Health.{ReconcileLabels, Prometheus, IsFamily, new_health}
use k8s_operator_template.Resources.Types.{Deployment}
use k8s_operator_template.Resources.Generate.{generate_deployment}
use k8s_operator_template.Platform.Requests.{
  Platform, Request, Answer, get_resource, merge_patch, patch_status, get_deployment,
  apply_configmap, apply_deployment, apply_service, publish,
}
use k8s_operator_template.Platform.Exec.{State}
use k8s_operator_template.Platform.Events.{Context}
use k8s_operator_template.Reconciler.Steady.Actions.{IsSteady}
use k8s_operator_template.Tests.Sample.{fresh}

abbrev same_label : ReconcileLabels → ReconcileLabels → Bool
same_label l k = str_eq l.namespace k.namespace && str_eq l.name k.name

-- Families as functions of the label.
abbrev pub families : Prometheus
families = record {
  Counters = ReconcileLabels → ℕ;
  Histograms = Unit;
  Gauges = ReconcileLabels → Option ℤ;
  PhaseGauges = Unit;
  Seconds = ℕ;
  no_counters = λ k. 0;
  no_histograms = tt;
  no_gauges = λ k. none;
  no_phase_gauges = tt;
  inc = λ l c k. if same_label l k then c k + 1 else c k;
  observe = λ l d h. h;
  set_gauge = λ l n g k. if same_label l k then some n else g k;
  set_phase_gauge = λ l n g. g;
  count = λ c k. c k;
  gauge = λ g k. g k;
}

same_label_refl : (l : ReconcileLabels) → same_label l l ≡ true
same_label_refl l = ground (arith, str_eq_iff l.namespace l.namespace, str_eq_iff l.name l.name)

same_label_ne : (l k : ReconcileLabels) → l ≢ k → same_label l k ≡ false
same_label_ne l k h = ground (arith, str_eq_iff l.namespace k.namespace, str_eq_iff l.name k.name)

pub families-IsFamily : IsFamily families
families-IsFamily = record {
  count_none = λ l. refl;
  count_inc = λ l c. rw (same_label_refl l);
  count_inc_ne = λ l k c h. rw (same_label_ne l k h);
  gauge_set = λ l n g. rw (same_label_refl l);
  gauge_set_ne = λ l k n g h. rw (same_label_ne l k h);
}

-- The deployment of a resource, with `n` ready replicas.
abbrev pub deployment_with : ℤ → Deployment
deployment_with n = record (generate_deployment (fresh (pos 3))) {
  status = some (record { ready_replicas = some n });
}

-- Every write succeeds, the stored object is `o` and `n` replicas are ready.
abbrev answers : MyResource → ℤ → (q : Request) → Result (Answer q) KubeError
answers o n (get_resource _ _) = ok o
answers o n (merge_patch _ _ _ _) = ok tt
answers o n (patch_status _ _ _ _) = ok tt
answers o n (get_deployment _ _) = ok (deployment_with n)
answers o n (apply_configmap _ _ _ _) = ok tt
answers o n (apply_deployment _ _ _ _) = ok tt
answers o n (apply_service _ _ _ _) = ok tt
answers o n (publish _ _ _) = ok tt

-- The world counts the requests.
abbrev pub calm_with : MyResource → ℤ → Platform
calm_with o n = record {
  World = ℕ;
  perform = λ q w. (answers o n q, suc w);
  status_not_found = λ s. s.code == 404;
  show_kube = λ e. "kube";
  now = λ w. ("2025-01-01T00:00:00Z", w);
  prometheus = families;
  Instant = ℕ;
  start_timer = λ w. (w, w);
  elapsed = λ t w. (1, w);
}

abbrev pub calm : ℤ → Platform
calm n = calm_with (fresh (pos 3)) n

abbrev pub start_state : (n : ℤ) → State (calm n)
start_state n = record { world = 0; log = []; health = some (new_health families) }

abbrev pub controller : Context
controller = record { reporter = record { controller = "my-operator"; instance_name = none } }

pub calm_with-IsSteady :
    (o : MyResource) (n : ℤ) (obj : MyResource) → IsSteady (calm_with o n) obj o (deployment_with n)
calm_with-IsSteady o n obj = record {
  reads_deployment = λ w. refl;
  reads_resource = λ w. refl;
  writes_status = λ w params status. refl;
  applies_configmap = λ w params made. refl;
  applies_deployment = λ w params made. refl;
  applies_service = λ w params made. refl;
}

pub calm-IsSteady :
    (n : ℤ) (obj : MyResource) → IsSteady (calm n) obj (fresh (pos 3)) (deployment_with n)
calm-IsSteady n obj = calm_with-IsSteady (fresh (pos 3)) n obj
