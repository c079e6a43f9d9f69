-- ===== src/Health.antt =====
-- src/health.rs: readiness, the metrics and the probes. The metric families of `prometheus_client`
-- are the parameter `Prometheus`.
pub mod Counting
pub mod Endpoints
use k8s_operator_template.Prelude.{
  ℕ, ◌+◌, ℤ, String, Bool, true, false, ◌≡◌, ◌≢◌, Option, none, some, if◌then◌else◌,
}
use k8s_operator_template.Prelude.Result.{Result, ok, err}
use k8s_operator_template.Webhooks.Server.{StatusCode, ok_200, service_unavailable_503}

pub record ReconcileLabels : Type 0 where
  pub namespace : String
  pub name : String

pub record PhaseLabels : Type 0 where
  pub phase : String

-- The metric families by the labels that the operator uses, each with its update through
-- `get_or_create`, and the reads that an exposition shows.
pub record Prometheus : Type 1 where
  pub Counters : Type 0
  pub Histograms : Type 0
  pub Gauges : Type 0
  pub PhaseGauges : Type 0
  pub Seconds : Type 0
  pub no_counters : Counters
  pub no_histograms : Histograms
  pub no_gauges : Gauges
  pub no_phase_gauges : PhaseGauges
  pub inc : ReconcileLabels → Counters → Counters
  pub observe : ReconcileLabels → Seconds → Histograms → Histograms
  pub set_gauge : ReconcileLabels → ℤ → Gauges → Gauges
  pub set_phase_gauge : PhaseLabels → ℤ → PhaseGauges → PhaseGauges
  pub count : Counters → ReconcileLabels → ℕ
  pub gauge : Gauges → ReconcileLabels → Option ℤ

-- The documented behaviour of counters and gauges: a label has its own metric.
pub record IsFamily (p : Prometheus) : Type 0 where
  pub count_none : (l : ReconcileLabels) → p.count p.no_counters l ≡ 0
  pub count_inc : (l : ReconcileLabels) (c : p.Counters) → p.count (p.inc l c) l ≡ p.count c l + 1
  pub count_inc_ne :
      (l k : ReconcileLabels) (c : p.Counters) → l ≢ k → p.count (p.inc l c) k ≡ p.count c k
  pub gauge_set :
      (l : ReconcileLabels) (n : ℤ) (g : p.Gauges) → p.gauge (p.set_gauge l n g) l ≡ some n
  pub gauge_set_ne :
      (l k : ReconcileLabels) (n : ℤ) (g : p.Gauges)
      → l ≢ k
      → p.gauge (p.set_gauge l n g) k ≡ p.gauge g k

pub record Metrics (p : Prometheus) : Type 0 where
  pub reconciliations_total : p.Counters
  pub reconciliation_errors_total : p.Counters
  pub reconcile_duration_seconds : p.Histograms
  pub resources_total : p.PhaseGauges
  pub resource_replicas_desired : p.Gauges
  pub resource_replicas_ready : p.Gauges

pub record HealthState (p : Prometheus) : Type 0 where
  pub ready : Bool
  pub metrics : Metrics p
  pub last_reconcile : ℕ

module _ (p : Prometheus) where
  unfoldable pub new_metrics : Metrics p
  new_metrics = record {
    reconciliations_total = p.no_counters;
    reconciliation_errors_total = p.no_counters;
    reconcile_duration_seconds = p.no_histograms;
    resources_total = p.no_phase_gauges;
    resource_replicas_desired = p.no_gauges;
    resource_replicas_ready = p.no_gauges;
  }

  unfoldable pub record_reconcile : String → String → p.Seconds → Metrics p → Metrics p
  record_reconcile namespace name duration_secs m =
      let labels : ReconcileLabels = record { namespace = namespace; name = name } in
      record m {
        reconciliations_total = p.inc labels m.reconciliations_total;
        reconcile_duration_seconds = p.observe labels duration_secs m.reconcile_duration_seconds;
      }

  unfoldable pub record_error : String → String → Metrics p → Metrics p
  record_error namespace name m = record m {
    reconciliation_errors_total =
        p.inc (record { namespace = namespace; name = name }) m.reconciliation_errors_total;
  }

  unfoldable set_resources_by_phase : String → ℤ → Metrics p → Metrics p
  set_resources_by_phase phase count m = record m {
    resources_total = p.set_phase_gauge (record { phase = phase }) count m.resources_total;
  }

  unfoldable pub set_resource_replicas : String → String → ℤ → ℤ → Metrics p → Metrics p
  set_resource_replicas namespace name desired ready m =
      let labels : ReconcileLabels = record { namespace = namespace; name = name } in
      record m {
        resource_replicas_desired = p.set_gauge labels desired m.resource_replicas_desired;
        resource_replicas_ready = p.set_gauge labels ready m.resource_replicas_ready;
      }

  unfoldable pub new_health : HealthState p
  unfolding new_metrics
  new_health = record { ready = false; metrics = new_metrics; last_reconcile = 0 }

  unfoldable pub set_ready : Bool → HealthState p → HealthState p
  set_ready ready h = record h { ready = ready }

  unfoldable pub is_ready : HealthState p → Bool
  is_ready h = h.ready

  unfoldable pub healthz : HealthState p → StatusCode × String
  healthz h = (ok_200, "ok")

  unfoldable pub readyz : HealthState p → StatusCode × String
  unfolding is_ready
  readyz h = if is_ready h then (ok_200, "ready") else (service_unavailable_503, "not ready")
