-- ===== src/Reconciler/Counts.antt =====
-- The counters of src/health.rs over any sequence of visits of src/controller/reconciler.rs, each
-- followed by `error_policy` if it fails.
pub mod Labels
use k8s_operator_template.Prelude.{
  ℕ, ◌+◌, String, Bool, true, false, not, ◌&&◌, ◌≡◌, refl, ◌≢◌, ◌∙◌, sym, ap, subst, ◌⊎◌, inl, inr,
  Option, some, ℤ, is_some, str_eq, str_eq_iff, arith, Bool-cases, if◌then◌else◌,
}
use mathlib.Core.Option
use k8s_operator_template.Prelude.Result.{Result, ok, err}
use k8s_operator_template.Crd.{MyResource}
use k8s_operator_template.Errors.{Error, KubeError}
use k8s_operator_template.Health.{ReconcileLabels, Prometheus, IsFamily, HealthState}
use k8s_operator_template.Health.Counting.{label, Shows, visit-Shows, record_error-counts}
use k8s_operator_template.Platform.Requests.{Platform, Request}
use k8s_operator_template.Platform.Exec.{State, with_health}
use k8s_operator_template.Platform.Events.{Context}
use k8s_operator_template.Platform.Outcomes.{Outcome}
use k8s_operator_template.Reconciler.Actions.{Action}
use k8s_operator_template.Reconciler.Loop.{
  has_finalizer, namespace_of, visited, reconcile, error_policy,
}
use k8s_operator_template.Reconciler.Finalizer.{
  patched, after_patch, reconcile-deleted, reconcile-unclaimed,
}
use k8s_operator_template.Reconciler.Moves.{IsLive}
use k8s_operator_template.Reconciler.Policy.{failed_visit}
use k8s_operator_template.Reconciler.Script.Plan.{Follows, Fails}
use k8s_operator_template.Reconciler.Script.Visit.{reconcile-Follows}
use Labels.{
  is_of, one_if, Tally, visited-Tally, failed-Tally, then_Tally, as_Tally, same_Tally, one_and,
  none_and, both_false,
}

abbrev pub is_live : MyResource → Bool
is_live obj = not (is_some obj.metadata.deletion_timestamp) && has_finalizer obj.metadata.finalizers

abbrev succeeds : Result Action Error → Bool
succeeds (ok a) = true
succeeds (err e) = false

-- What a visit to `obj` that ends so adds to the two counters of the label `l`.
abbrev pub visits_of : ReconcileLabels → MyResource → Result Action Error → ℕ
visits_of l obj r = one_if (is_of l obj && (is_live obj && succeeds r))

abbrev pub errors_of : ReconcileLabels → MyResource → Result Action Error → ℕ
errors_of l obj r = one_if (is_of l obj && not (succeeds r))

-- A visit, and `error_policy` if it fails.
abbrev pub settled : {P : Platform} → Context → MyResource → Result Action Error × State P → State P
settled ctx obj (ok a, t) = t
settled ctx obj (err e, t) = (error_policy ctx obj e t).1

-- The world may change between two visits.
pub data Serves {P : Platform} (ctx : Context) (l : ReconcileLabels)
    : State P → ℕ → ℕ → State P → Type 0 where
  idle : {s : State P} → Serves ctx l s 0 0 s
  serve :
      {s t : State P} {visits errors : ℕ} (obj : MyResource)
      → Serves ctx l s visits errors t
      → Serves ctx l s
          (visits + visits_of l obj (reconcile ctx obj t).0)
          (errors + errors_of l obj (reconcile ctx obj t).0)
          (settled ctx obj (reconcile ctx obj t))
  elsewhere :
      {s t : State P} {visits errors : ℕ} (w : P.World)
      → Serves ctx l s visits errors t
      → Serves ctx l s visits errors (record t { world = w })

module _ {P : Platform} (ctx : Context) (obj : MyResource) where
  -- What the metrics are after a visit from `s`.
  abbrev Meters : State P → Result Action Error × State P → Type 0
  Meters s (ok a, t) =
      ((is_live obj ≡ true)
        × ((d : P.prometheus.Seconds) × (n : ℤ) × (t.health
              ≡ Option.map (visited P.prometheus obj d n) s.health)))
      ⊎ ((is_live obj ≡ false) × (t.health ≡ s.health))
  Meters s (err e, t) = t.health ≡ s.health

  live_Meters :
      (s : State P) (end : Result Action Error × State P)
      → is_live obj ≡ true
      → Outcome (Follows ctx obj s) (Fails ctx obj s) end
      → Meters s end
  live_Meters s (ok a, t) alive h = inl (alive, (h.duration, h.counted, h.metrics))
  live_Meters s (err e, t) alive h = h.metrics

  patch_Meters :
      (s : State P) (r : Result (Unit {0}) KubeError) (a : Action) (q : Request)
      → is_live obj ≡ false
      → Meters s (patched r a, after_patch q s)
  patch_Meters s (ok _) a q h = inr (h, refl)
  patch_Meters s (err k) a q h = refl

  visit_Meters : (s : State P) → Meters s (reconcile ctx obj s)
  visit_Meters s = elim (Bool-cases (is_some obj.metadata.deletion_timestamp)) [
    | inl gone ↦ rw (reconcile-deleted ctx obj s gone) (patch_Meters s _ _ _ (rw gone refl))
    | inr kept ↦ elim (Bool-cases (has_finalizer obj.metadata.finalizers)) [
      | inl mine ↦
          live_Meters s (reconcile ctx obj s) (rw (kept, mine) refl)
            (reconcile-Follows ctx obj s (record { kept = kept; claimed = mine })).outcome
      | inr foreign ↦
          rw (reconcile-unclaimed ctx obj s kept foreign)
            (patch_Meters s _ _ _ (rw (kept, foreign) refl))
    ]
  ]

module _ {P : Platform} (family : IsFamily P.prometheus) (ctx : Context) (l : ReconcileLabels) where
  -- The state has metrics, with `v` visits and `e` errors more than `h`.
  pub record Tallies (h : HealthState P.prometheus) (v e : ℕ) (t : State P) : Type 0 where
    pub after : HealthState P.prometheus
    pub shown : t.health ≡ some after
    pub tally : Tally P.prometheus family l h v e after

  settled-Tallies :
      (obj : MyResource) (s : State P) (h : HealthState P.prometheus)
      (end : Result Action Error × State P)
      → s.health ≡ some h
      → Meters ctx obj s end
      → Tallies h (visits_of l obj end.0) (errors_of l obj end.0) (settled ctx obj end)
  unfolding error_policy with_health
  settled-Tallies obj s h (ok a, t) at (inl (alive, (d, n, m))) = record {
    after = visited P.prometheus obj d n h;
    shown = m ∙ ap (Option.map (visited P.prometheus obj d n)) at;
    tally =
        as_Tally P.prometheus family l h _ _ _ _ _ (visited-Tally P.prometheus family l obj d n h)
          (one_and (is_of l obj) _ (rw alive refl)) (none_and (is_of l obj) false refl);
  }
  settled-Tallies obj s h (ok a, t) at (inr (dead, m)) = record {
    after = h;
    shown = m ∙ at;
    tally =
        as_Tally P.prometheus family l h h _ _ _ _ (same_Tally P.prometheus family l h)
          (none_and (is_of l obj) _ (rw dead refl)) (none_and (is_of l obj) false refl);
  }
  settled-Tallies obj s h (err e, t) at m = record {
    after = failed_visit P.prometheus obj h;
    shown = rw (m, at) refl;
    tally =
        as_Tally P.prometheus family l h _ _ _ _ _ (failed-Tally P.prometheus family l obj h)
          (none_and (is_of l obj) (is_live obj && false) (both_false (is_live obj)))
          (one_and (is_of l obj) true refl);
  }

  -- For metric families that keep a metric per label, over any sequence of visits to any resources
  -- on any platform, each followed by `error_policy` if it fails: the visit counter of a label
  -- grows by the number of successful visits to live resources of that name and namespace, and its
  -- error counter by the number of the failed visits to resources of that name and namespace.
  pub Serves-Tallies :
      {s t : State P} {v e : ℕ} (h : HealthState P.prometheus)
      → s.health ≡ some h
      → Serves ctx l s v e t
      → Tallies h v e t
  Serves-Tallies h at idle = record {
    after = h;
    shown = at;
    tally = same_Tally P.prometheus family l h;
  }
  Serves-Tallies h at (serve {t = t} obj rest) =
      let before = Serves-Tallies h at rest in
      let now =
        settled-Tallies obj t before.after (reconcile ctx obj t) before.shown
          (visit_Meters ctx obj t) in
      record {
        after = now.after;
        shown = now.shown;
        tally =
            then_Tally P.prometheus family l h before.after now.after _ _ _ _ before.tally
              now.tally;
      }
  Serves-Tallies h at (elsewhere w rest) =
      let before = Serves-Tallies h at rest in
      record { after = before.after; shown = before.shown; tally = before.tally }
