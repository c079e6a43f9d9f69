-- ===== src/Health/Counting.antt =====
-- What the metrics and the probes of src/health.rs show.
use k8s_operator_template.Prelude.{◌+◌, ℤ, String, Bool, true, ◌≡◌, refl, ◌≢◌, ◌↔◌, some, arith}
use k8s_operator_template.Webhooks.Server.{ok_200}
use k8s_operator_template.Health.{
  ReconcileLabels, Prometheus, IsFamily, Metrics, HealthState, record_reconcile, record_error,
  set_resource_replicas, set_ready, is_ready, readyz,
}

-- The label pair of a resource.
abbrev pub label : String → String → ReconcileLabels
label namespace name = record { namespace = namespace; name = name }

-- After `set_ready` the readiness probe answers 200 exactly when the flag that was set is true.
readyz-set_ready :
    (p : Prometheus) (b : Bool) (h : HealthState p)
    → ((readyz p (set_ready p b h)).0 ≡ ok_200) ↔ (b ≡ true)
unfolding readyz set_ready is_ready
readyz-set_ready p b h = ground arith

module _ (p : Prometheus) (family : IsFamily p) where
  -- What a visit with its metrics recorded shows afterwards.
  pub record Shows (namespace name : String) (desired ready : ℤ) (m m' : Metrics p) : Type 0 where
    pub counted :
        p.count m'.reconciliations_total (label namespace name)
        ≡ p.count m.reconciliations_total (label namespace name) + 1
    pub desired_gauge : p.gauge m'.resource_replicas_desired (label namespace name) ≡ some desired
    pub ready_gauge : p.gauge m'.resource_replicas_ready (label namespace name) ≡ some ready
    pub errors_kept : m'.reconciliation_errors_total ≡ m.reconciliation_errors_total
    pub others_kept :
        (k : ReconcileLabels)
        → label namespace name ≢ k
        → (p.count m'.reconciliations_total k ≡ p.count m.reconciliations_total k)
          × (p.gauge m'.resource_replicas_desired k ≡ p.gauge m.resource_replicas_desired k)
          × (p.gauge m'.resource_replicas_ready k ≡ p.gauge m.resource_replicas_ready k)

  -- For metric families that keep a metric per label: the updates of one visit add one to the
  -- visits of that resource and set its two gauges, and leave the errors and every other resource
  -- as they were.
  pub visit-Shows :
      (namespace name : String) (d : p.Seconds) (desired ready : ℤ) (m : Metrics p)
      → Shows namespace name desired ready m (
          set_resource_replicas p namespace name desired ready
            (record_reconcile p namespace name d m))
  unfolding set_resource_replicas record_reconcile
  visit-Shows namespace name d desired ready m = record {
    counted = family.count_inc _ _;
    desired_gauge = family.gauge_set _ _ _;
    ready_gauge = family.gauge_set _ _ _;
    errors_kept = refl;
    others_kept = λ k ne. (
      family.count_inc_ne _ k _ ne,
      family.gauge_set_ne _ k _ _ ne,
      family.gauge_set_ne _ k _ _ ne,
    );
  }

  -- For metric families that keep a metric per label, an error adds one to the errors of its
  -- resource, and leaves the errors of every other resource, the visits and the gauge of ready
  -- replicas as they were.
  pub record_error-counts :
      (namespace name : String) (m : Metrics p)
      → (p.count
            (record_error p namespace name m).reconciliation_errors_total
            (label namespace name)
          ≡ p.count m.reconciliation_errors_total (label namespace name) + 1)
        × ((k : ReconcileLabels)
            → label namespace name ≢ k
            → p.count (record_error p namespace name m).reconciliation_errors_total k
              ≡ p.count m.reconciliation_errors_total k)
        × ((record_error p namespace name m).reconciliations_total ≡ m.reconciliations_total)
        × ((record_error p namespace name m).resource_replicas_ready ≡ m.resource_replicas_ready)
  unfolding record_error
  record_error-counts namespace name m =
      (family.count_inc _ _, λ k ne. family.count_inc_ne _ k _ ne, refl, refl)
