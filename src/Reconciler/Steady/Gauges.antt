-- ===== src/Reconciler/Steady/Gauges.antt =====
-- What the metrics of src/health.rs show after a visit of src/controller/reconciler.rs to a live
-- resource on a steady platform.
use k8s_operator_template.Prelude.{ℤ, ◌≡◌, refl, ◌∙◌, ap, some}
use mathlib.Core.Option
use k8s_operator_template.Prelude.Result.{Result}
use k8s_operator_template.Crd.{MyResource, pending}
use k8s_operator_template.Errors.{Error}
use k8s_operator_template.Resources.Types.{Deployment, DeploymentStatus}
use k8s_operator_template.Validation.Bounds.{InBounds}
use k8s_operator_template.Health.{IsFamily, HealthState}
use k8s_operator_template.Health.Counting.{Shows, visit-Shows}
use k8s_operator_template.Platform.Requests.{Platform}
use k8s_operator_template.Platform.Exec.{State}
use k8s_operator_template.Platform.Events.{Context}
use k8s_operator_template.Reconciler.Actions.{Action, ready_of}
use k8s_operator_template.Reconciler.Loop.{namespace_of, phase_of, visited, reconcile}
use k8s_operator_template.Reconciler.Moves.{IsLive}
use k8s_operator_template.Reconciler.Steady.Actions.{IsSteady}
use k8s_operator_template.Reconciler.Steady.Visit.{reconcile-Visited}

-- A visit to `obj` with `n` ready replicas is shown in the health state that was `h` before.
pub record Gauges {P : Platform} (family : IsFamily P.prometheus) (obj : MyResource) (n : ℤ)
    (h : HealthState P.prometheus) (end : Result Action Error × State P) : Type 0 where
  pub after : HealthState P.prometheus
  pub kept : end.1.health ≡ some after
  pub shown :
      Shows P.prometheus family
        (namespace_of obj)
        obj.metadata.name_any
        obj.spec.replicas
        n
        h.metrics
        after.metrics

module _ {P : Platform} (family : IsFamily P.prometheus) (ctx : Context) (obj current : MyResource)
    (d : Deployment) (steady : IsSteady P obj current d) where
  visited-Shows :
      (n : ℤ) (duration : P.prometheus.Seconds) (h : HealthState P.prometheus)
      → ready_of d ≡ n
      → Shows P.prometheus family
          (namespace_of obj)
          obj.metadata.name_any
          obj.spec.replicas
          n
          h.metrics
          (visited P.prometheus obj duration (ready_of d) h).metrics
  visited-Shows n duration h e = rw e (
      visit-Shows P.prometheus family (namespace_of obj) obj.metadata.name_any duration
        obj.spec.replicas n h.metrics)

  -- On a steady platform whose deployment reports `n` ready replicas, and with metric families that
  -- keep a metric per label: a visit to a live resource, whose spec is within the bounds if the
  -- resource is pending, adds one to the visits of that resource, sets its gauge of desired
  -- replicas to the count of its spec and that of ready replicas to `n`, and leaves the errors and
  -- the metrics of every other resource as they were.
  pub reconcile-Gauges :
      (s : State P) (h : HealthState P.prometheus) (status : DeploymentStatus) (n : ℤ)
      → IsLive obj
      → (phase_of obj.status ≡ pending → InBounds obj.spec.replicas)
      → d.status ≡ some status
      → status.ready_replicas ≡ some n
      → s.health ≡ some h
      → Gauges family obj n h (reconcile ctx obj s)
  reconcile-Gauges s h status n alive fits has counts at =
      let v = reconcile-Visited ctx obj current d steady s alive fits in
      let duration = v.holds.duration in
      record {
        after = visited P.prometheus obj duration (ready_of d) h;
        kept =
            ap (λ (end : Result Action Error × State P). end.1.health) v.runs
            ∙ v.holds.metrics
            ∙ ap (Option.map (visited P.prometheus obj duration (ready_of d))) at;
        shown = visited-Shows n duration h (rw (has, counts) refl);
      }
