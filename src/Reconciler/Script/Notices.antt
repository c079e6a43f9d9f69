-- ===== src/Reconciler/Script/Notices.antt =====
-- What src/controller/reconciler.rs sends to tell of a change of phase, on any platform.
use k8s_operator_template.Prelude.{
  ℤ, pos, ◌≡◌, refl, some, [], ◌∷◌, ◌≤?◌, ◌<?◌, ◌=?◌, inl, inr, Bool-cases, if◌then◌else◌,
}
use k8s_operator_template.Crd.{MyResource, Phase, creating, running, updating, degraded, failed}
use k8s_operator_template.Platform.Requests.{Platform, Event, publish}
use k8s_operator_template.Platform.Exec.{Exec, pure, ◌>>=◌}
use k8s_operator_template.Platform.Events.{Context}
use k8s_operator_template.Platform.Traces.{Sends, Sends-pure}
use k8s_operator_template.Platform.Emits.{Tells, Tells-then}
use k8s_operator_template.Reconciler.Loop.{created, still_running, updated, recovered}
use k8s_operator_template.Reconciler.Steady.Phases.{decide}
use k8s_operator_template.Reconciler.Script.Plan.{notice, Announces, silent, tells}
use k8s_operator_template.Reconciler.Script.Actions.{normal_sends, warning_sends}

module _ {P : Platform} (ctx : Context) (obj : MyResource) where
  -- A phase that is decided by an action that only tells of it.
  abbrev pub TellsOf : Phase → Phase → Exec P Phase → Type 0
  TellsOf p q m = Sends m (λ r ys. (r ≡ q) × Announces ctx obj p q ys) (λ e ys. ⊥)

  pub tell :
      (p q : Phase) (m : Exec P (Unit {0})) (event : Event)
      → Tells m (publish ctx.reporter event obj ∷ [])
      → notice p q ≡ some (event.type, event.reason)
      → TellsOf p q (m >>= λ _. pure q)
  tell p q m event sends h =
      Tells-then m _ (λ _. pure q) _ _ sends λ _. Sends-pure _ _ q (refl, tells event h refl)

  pub quiet : (p q : Phase) → Announces ctx obj p q [] → TellsOf p q (pure q)
  quiet p q h = Sends-pure _ _ q (refl, h)

  pub created-TellsOf : (n : ℤ) → TellsOf creating (decide obj n creating) (created ctx obj n)
  unfolding decide
  created-TellsOf n = elim (Bool-cases (obj.spec.replicas ≤? n)) [
    | inl enough ↦ rw enough (tell creating running _ _ (normal_sends ctx obj _ _ _) refl)
    | inr short ↦ rw short (quiet creating creating (silent refl refl))
  ]

  pub still_running-TellsOf :
      (n : ℤ)
      → TellsOf running
          (if n <? obj.spec.replicas then degraded else running)
          (still_running ctx obj n)
  still_running-TellsOf n = elim (Bool-cases (n <? obj.spec.replicas)) [
    | inl short ↦ rw short (tell running degraded _ _ (warning_sends ctx obj _ _ _) refl)
    | inr enough ↦ rw enough (quiet running running (silent refl refl))
  ]

  pub updated-TellsOf : (n : ℤ) → TellsOf updating (decide obj n updating) (updated ctx obj n)
  unfolding decide
  updated-TellsOf n = elim (Bool-cases (obj.spec.replicas ≤? n)) [
    | inl enough ↦ rw enough (tell updating running _ _ (normal_sends ctx obj _ _ _) refl)
    | inr short ↦ rw short (quiet updating updating (silent refl refl))
  ]

  pub recovered-TellsOf : (n : ℤ) → TellsOf degraded (decide obj n degraded) (recovered ctx obj n)
  unfolding decide
  recovered-TellsOf n = elim (Bool-cases (obj.spec.replicas ≤? n)) [
    | inl enough ↦ rw enough (tell degraded running _ _ (normal_sends ctx obj _ _ _) refl)
    | inr short ↦ elim (Bool-cases (n =? pos 0)) [
      | inl gone ↦ rw (short, gone) (tell degraded failed _ _ (warning_sends ctx obj _ _ _) refl)
      | inr left ↦ rw (short, left) (quiet degraded degraded (silent refl refl))
    ]
  ]
