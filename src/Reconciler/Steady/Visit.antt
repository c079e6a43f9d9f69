-- ===== src/Reconciler/Steady/Visit.antt =====
-- A whole visit of src/controller/reconciler.rs to a live resource on a steady platform.
use k8s_operator_template.Prelude.{pos, ◌≡◌, refl, ◌∙◌, none}
use mathlib.Core.Option
use k8s_operator_template.Prelude.Result.{or_default}
use k8s_operator_template.Crd.{MyResource, Phase, pending}
use k8s_operator_template.Resources.Types.{Deployment}
use k8s_operator_template.Validation.Bounds.{InBounds}
use k8s_operator_template.Platform.Requests.{Platform}
use k8s_operator_template.Platform.Exec.{
  State, Exec, pure, ◌>>=◌, ◌>>◌, attempt, start_timer, elapsed, with_health,
}
use k8s_operator_template.Platform.Events.{Context}
use k8s_operator_template.Platform.Reaches.{Reaches, Reaches-bind, Reaches-attempt}
use k8s_operator_template.Reconciler.Actions.{
  Action, requeue, ready_of, check_ready_replicas, update_status,
}
use k8s_operator_template.Reconciler.Loop.{
  namespace_of, phase_of, requeue_duration, visited, finish, progress, next_phase, dispatch,
  reconcile,
}
use k8s_operator_template.Reconciler.Moves.{IsLive}
use k8s_operator_template.Reconciler.Steady.Actions.{IsSteady, Records, check-Quiet, update-Reaches}
use k8s_operator_template.Reconciler.Steady.Phases.{decide, next_phase-Decides}

module _ {P : Platform} (ctx : Context) (obj current : MyResource) (d : Deployment)
    (steady : IsSteady P obj current d) where
  -- What a visit that ends in the phase `q` leaves behind: the next visit, the status and the
  -- metrics.
  pub record Visited (s : State P) (q : Phase) (a : Action) (t : State P) : Type 0 where
    pub action : a ≡ requeue (requeue_duration q)
    pub status : Records obj current q (ready_of d) none t.log
    pub duration : P.prometheus.Seconds
    pub metrics : t.health ≡ Option.map (visited P.prometheus obj duration (ready_of d)) s.health

  metered :
      (timer : P.Instant) (q : Phase) (s t : State P)
      → Records obj current q (ready_of d) none t.log
      → t.health ≡ s.health
      → Reaches {P = P}
          (do
            duration ← elapsed timer
            with_health (visited P.prometheus obj duration (ready_of d))
            pure (requeue (requeue_duration q)))
          t
          (Visited s q)
  unfolding elapsed with_health ◌>>=◌
  metered timer q s t written same =
      let duration = (P.elapsed timer t.world).0 in
      record {
        result = requeue (requeue_duration q);
        end = record t {
          world = (P.elapsed timer t.world).1;
          health = Option.map (visited P.prometheus obj duration (ready_of d)) t.health;
        };
        runs = refl;
        holds = record { action = refl; status = written; duration = duration; metrics = rw same };
      }

  finish-Visited :
      (timer : P.Instant) (q : Phase) (s t : State P)
      → t.health ≡ s.health
      → Reaches (finish ctx obj timer q) t (Visited s q)
  unfolding finish
  finish-Visited timer q s t same =
      Reaches-bind (attempt (check_ready_replicas obj (namespace_of obj))) _ t
        (λ r u. (or_default r (pos 0) ≡ ready_of d) × (u.health ≡ s.health)) (Visited s q)
        (Reaches-attempt (check_ready_replicas obj (namespace_of obj)) t _ _
          (check-Quiet ctx obj current d steady t) λ n u h. (h.0, h.1 ∙ same))
        λ r u h. rw h.0 (
          Reaches-bind (update_status (namespace_of obj) obj.metadata.name_any q (ready_of d) none)
            _ u _ (Visited s q) (update-Reaches ctx obj current d steady q (ready_of d) none u)
            λ _ v k. metered timer q s v k.0 (k.1 ∙ h.1))

  -- From any state, and not only from the first of the visit.
  progress-Visited :
      (timer : P.Instant) (s t : State P)
      → (phase_of obj.status ≡ pending → InBounds obj.spec.replicas)
      → t.health ≡ s.health
      → Reaches
          (progress ctx obj timer)
          t
          (Visited s (decide obj (ready_of d) (phase_of obj.status)))
  unfolding progress
  progress-Visited timer s t fits same =
      Reaches-bind (next_phase ctx obj (phase_of obj.status)) (finish ctx obj timer) t
        (λ p u. (p ≡ decide obj (ready_of d) (phase_of obj.status)) × (u.health ≡ t.health))
        (Visited s (decide obj (ready_of d) (phase_of obj.status)))
        (next_phase-Decides ctx obj current d steady (phase_of obj.status) fits t)
        λ p u h. rw h.0 (finish-Visited timer _ s u (h.1 ∙ same))

  timed :
      (f : P.Instant → Exec P Action) (s : State P) (R : Action → State P → Type 0)
      → ((timer : P.Instant) (t : State P) → t.health ≡ s.health → Reaches (f timer) t R)
      → Reaches (start_timer >>= f) s R
  timed f s R k =
      Reaches-bind start_timer f s (λ _ t. t.health ≡ s.health) R (started s)
        λ timer t e. k timer t e
    where
      started : (s : State P) → Reaches {P = P} start_timer s (λ _ t. t.health ≡ s.health)
      started s =
          unfold start_timer in
          record {
            result = (P.start_timer s.world).0;
            end = record s { world = (P.start_timer s.world).1 };
            runs = refl;
            holds = refl;
          }

  live_dispatch :
      (timer : P.Instant) (t : State P) (R : Action → State P → Type 0)
      → IsLive obj
      → Reaches (progress ctx obj timer) t R
      → Reaches (dispatch ctx obj timer) t R
  live_dispatch timer t R alive h = rw (alive.kept, alive.claimed) h

  -- A visit to a live resource on a steady platform, whose spec is within the bounds if the
  -- resource is pending: it succeeds, asks for the next visit after the delay of the phase that
  -- `decide` gives, records as its last request that phase, the ready count and the generation, and
  -- counts the visit and the replicas in the metrics.
  pub reconcile-Visited :
      (s : State P)
      → IsLive obj
      → (phase_of obj.status ≡ pending → InBounds obj.spec.replicas)
      → Reaches (reconcile ctx obj) s (Visited s (decide obj (ready_of d) (phase_of obj.status)))
  unfolding reconcile
  reconcile-Visited s alive fits =
      timed (dispatch ctx obj) s _
        λ timer t same. live_dispatch timer t _ alive (progress-Visited timer s t fits same)
