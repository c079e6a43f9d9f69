-- ===== src/Reconciler/Counts/Labels.antt =====
-- The two counters of src/health.rs for one label, and the updates of src/controller/reconciler.rs.
use k8s_operator_template.Prelude.{
  ℕ, ◌+◌, String, Bool, true, false, ◌&&◌, ◌≡◌, refl, ◌≢◌, ap, subst, ◌⊎◌, inl, inr, ℤ, str_eq,
  str_eq_iff, arith, Bool-cases, if◌then◌else◌,
}
use k8s_operator_template.Crd.{MyResource}
use k8s_operator_template.Health.{ReconcileLabels, Prometheus, IsFamily, HealthState}
use k8s_operator_template.Health.Counting.{label, Shows, visit-Shows, record_error-counts}
use k8s_operator_template.Reconciler.Loop.{namespace_of, visited}
use k8s_operator_template.Reconciler.Policy.{failed_visit}

abbrev pub is_of : ReconcileLabels → MyResource → Bool
is_of l obj = str_eq (namespace_of obj) l.namespace && str_eq obj.metadata.name_any l.name

abbrev pub one_if : Bool → ℕ
one_if b = if b then 1 else 0

labelled :
    (l : ReconcileLabels) (namespace name : String)
    → namespace ≡ l.namespace
    → name ≡ l.name
    → label namespace name ≡ l
labelled l namespace name e f = rw (e, f) refl

is_of-cases :
    (l : ReconcileLabels) (obj : MyResource)
    → ((label (namespace_of obj) obj.metadata.name_any ≡ l) × (is_of l obj ≡ true))
      ⊎ ((label (namespace_of obj) obj.metadata.name_any ≢ l) × (is_of l obj ≡ false))
is_of-cases l obj = elim (Bool-cases (is_of l obj)) [
  | inl same ↦ inl (
    labelled l _ _ (ground (arith, str_eq_iff (namespace_of obj) l.namespace))
        (ground (arith, str_eq_iff obj.metadata.name_any l.name)),
    same,
  )
  | inr apart ↦ inr (
    λ h.
        let e = ap (λ (k : ReconcileLabels). k.namespace) h in
        let f = ap (λ (k : ReconcileLabels). k.name) h in
        ground (
          arith,
          str_eq_iff (namespace_of obj) l.namespace,
          str_eq_iff obj.metadata.name_any l.name,
        ),
    apart,
  )
]

pub one_and : (b c : Bool) → c ≡ true → one_if (b && c) ≡ one_if b
one_and true c h = rw h
one_and false c h = refl

pub none_and : (b c : Bool) → c ≡ false → one_if (b && c) ≡ 0
none_and true c h = rw h
none_and false c h = refl

pub both_false : (b : Bool) → (b && false) ≡ false
both_false true = refl
both_false false = refl

module _ (p : Prometheus) (family : IsFamily p) (l : ReconcileLabels) where
  -- The two counters of `l` after `v` visits and `e` errors.
  pub record Tally (h : HealthState p) (v e : ℕ) (h' : HealthState p) : Type 0 where
    pub visits :
        p.count h'.metrics.reconciliations_total l ≡ p.count h.metrics.reconciliations_total l + v
    pub errors :
        p.count h'.metrics.reconciliation_errors_total l
        ≡ p.count h.metrics.reconciliation_errors_total l + e

  pub visited-Tally :
      (obj : MyResource) (d : p.Seconds) (n : ℤ) (h : HealthState p)
      → Tally h (one_if (is_of l obj)) 0 (visited p obj d n h)
  visited-Tally obj d n h = elim (is_of-cases l obj) [
    | inl (same, is) ↦ rw is (record {
      visits =
          subst
            (λ k.
              p.count (visited p obj d n h).metrics.reconciliations_total k
              ≡ p.count h.metrics.reconciliations_total k + 1)
            same shows.counted;
      errors = rw shows.errors_kept (omega arith);
    })
    | inr (apart, isnt) ↦ rw isnt (record {
      visits = rw (shows.others_kept l apart).0 (omega arith);
      errors = rw shows.errors_kept (omega arith);
    })
  ]
    where
      shows :
          Shows p family
            (namespace_of obj)
            obj.metadata.name_any
            obj.spec.replicas
            n
            h.metrics
            (visited p obj d n h).metrics
      shows = visit-Shows p family _ _ d _ n h.metrics

  pub failed-Tally :
      (obj : MyResource) (h : HealthState p)
      → Tally h 0 (one_if (is_of l obj)) (failed_visit p obj h)
  failed-Tally obj h =
      let counts =
        record_error-counts p family (namespace_of obj) obj.metadata.name_any h.metrics in
      elim (is_of-cases l obj) [
        | inl (same, is) ↦ rw is (record {
          visits = rw counts.2 (omega arith);
          errors =
              subst
                (λ k.
                  p.count (failed_visit p obj h).metrics.reconciliation_errors_total k
                  ≡ p.count h.metrics.reconciliation_errors_total k + 1)
                same counts.0;
        })
        | inr (apart, isnt) ↦ rw isnt (record {
          visits = rw counts.2 (omega arith);
          errors = rw (counts.1 l apart) (omega arith);
        })
      ]

  pub then_Tally :
      (a b c : HealthState p) (v w e f : ℕ)
      → Tally a v e b
      → Tally b w f c
      → Tally a (v + w) (e + f) c
  then_Tally a b c v w e f h k = record {
    visits = omega (arith, h.visits, k.visits);
    errors = omega (arith, h.errors, k.errors);
  }

  -- The same numbers.
  pub as_Tally :
      (h h' : HealthState p) (v w e f : ℕ) → Tally h v e h' → w ≡ v → f ≡ e → Tally h w f h'
  as_Tally h h' v w e f t g k = record {
    visits = omega (arith, t.visits, g);
    errors = omega (arith, t.errors, k);
  }

  pub same_Tally : (h : HealthState p) → Tally h 0 0 h
  same_Tally h = record { visits = omega arith; errors = omega arith }
