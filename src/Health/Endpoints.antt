-- ===== src/Health/Endpoints.antt =====
-- The endpoints of src/health.rs: the labels and names under which the metrics are exposed, the
-- handlers with their routes, and the server. The text encoding of `prometheus_client` and the HTTP
-- server are parameters.
use k8s_operator_template.Prelude.{String, Option, List, [], ◌∷◌, unwrap_or}
use k8s_operator_template.Prelude.Result.{Result, ◌>>=◌}
use k8s_operator_template.Webhooks.Server.{StatusCode, ok_200}
use k8s_operator_template.Webhooks.Listener.{Route, get, SocketAddr}
use k8s_operator_template.Health.{
  ReconcileLabels, PhaseLabels, Prometheus, Metrics, HealthState, healthz, readyz,
}

-- The pairs that `EncodeLabelSet` encodes, in their order.
unfoldable pub label_pairs : ReconcileLabels → List (String × String)
label_pairs l = ("namespace", l.namespace) ∷ ("name", l.name) ∷ []

unfoldable pub phase_label_pairs : PhaseLabels → List (String × String)
phase_label_pairs l = ("phase", l.phase) ∷ []

module _ (p : Prometheus) where
  pub data Family : Type 0 where
    counters : p.Counters → Family
    histograms : p.Histograms → Family
    gauges : p.Gauges → Family
    phase_gauges : p.PhaseGauges → Family

  pub record Registered : Type 0 where
    pub name : String
    pub help : String
    pub family : Family

  -- The registry of `Metrics::new`: it shares the families with the fields of the metrics.
  unfoldable pub registry : Metrics p → List Registered
  registry m =
      record {
        name = "myoperator_reconciliations";
        help = "Total number of reconciliations";
        family = counters m.reconciliations_total;
      }
      ∷ record {
        name = "myoperator_reconciliation_errors";
        help = "Total number of reconciliation errors";
        family = counters m.reconciliation_errors_total;
      }
      ∷ record {
        name = "myoperator_reconcile_duration_seconds";
        help = "Duration of reconciliation in seconds";
        family = histograms m.reconcile_duration_seconds;
      }
      ∷ record {
        name = "myoperator_resources_total";
        help = "Total number of MyResource resources by phase";
        family = phase_gauges m.resources_total;
      }
      ∷ record {
        name = "myoperator_resource_replicas_desired";
        help = "Desired number of replicas for each resource";
        family = gauges m.resource_replicas_desired;
      }
      ∷ record {
        name = "myoperator_resource_replicas_ready";
        help = "Number of ready replicas for each resource";
        family = gauges m.resource_replicas_ready;
      }
      ∷ []

  -- With the library's `encode` into a text, which may fail.
  unfoldable pub encode : (List Registered → Option String) → Metrics p → String
  unfolding registry
  encode encode_text m = unwrap_or (encode_text (registry m)) "# Error encoding metrics"

  -- A response: with the library's content type for a text, or with one of its own.
  pub data Reply : Type 0 where
    plain : StatusCode × String → Reply
    typed : StatusCode → String → String → Reply

  unfoldable pub metrics_handler : (List Registered → Option String) → HealthState p → Reply
  unfolding encode
  metrics_handler encode_text h =
      typed ok_200 "text/plain; version=0.0.4; charset=utf-8" (encode encode_text h.metrics)

  unfoldable pub create_router :
      (List Registered → Option String) → List (Route (HealthState p → Reply))
  unfolding metrics_handler
  create_router encode_text =
      record { path = "/healthz"; method = get; handler = λ h. plain (healthz p h) }
      ∷ record { path = "/readyz"; method = get; handler = λ h. plain (readyz p h) }
      ∷ record { path = "/metrics"; method = get; handler = metrics_handler encode_text }
      ∷ []

  -- The HTTP server: both calls fail with an I/O error, and `serve` returns when the server ends.
  pub record Http : Type 1 where
    pub Listener : Type 0
    pub bind : SocketAddr → Result Listener String
    pub serve : Listener → List (Route (HealthState p → Reply)) → Result (Unit {0}) String

  unfoldable pub run_health_server :
      Http → (List Registered → Option String) → Result (Unit {0}) String
  unfolding create_router
  run_health_server http encode_text =
      let app = create_router encode_text in
      let addr : SocketAddr = record { octets = 0 ∷ 0 ∷ 0 ∷ 0 ∷ []; port = 8080 } in
      http.bind addr >>= λ listener. http.serve listener app
