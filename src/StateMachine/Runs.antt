-- ===== src/StateMachine/Runs.antt =====
-- Runs of the machine of src/controller/state_machine.rs over any sequence of observations: each
-- picks an event by `determine_event` and hands it to `transition`; an event that is invalid or
-- whose guard fails keeps the phase, as the comment in `determine_event` says.
use k8s_operator_template.Prelude.{
  Bool, true, false, ◌≡◌, refl, ◌≢◌, ◌⊎◌, inr, List, [], ◌∷◌, ◌++◌, arith,
}
use k8s_operator_template.Crd.{
  Phase, pending, creating, running, updating, degraded, failed, deleting,
}
use k8s_operator_template.StateMachine.Context
use k8s_operator_template.StateMachine.Context.{TransitionContext}
use k8s_operator_template.StateMachine.Table.{TransitionResult, success, new, transition}
use k8s_operator_template.StateMachine.Driver.{determine_event}
use k8s_operator_template.StateMachine.Graph.{AllReady, all_replicas_ready_iff}

-- What one look at the cluster shows.
pub record Observation : Type 0 where
  pub context : TransitionContext
  pub deleted : Bool

-- The phase after a transition was tried.
abbrev settle : Phase → TransitionResult → Phase
settle p (success from to event description) = to
settle p _ = p

unfoldable pub observe : Phase → Observation → Phase
observe p o = settle p (transition new p (determine_event p o.context o.deleted) o.context)

unfoldable pub run : Phase → List Observation → Phase
run p [] = p
run p (o ∷ os) = run (observe p o) os

observe_deleted : (p : Phase) (o : Observation) → o.deleted ≡ true → observe p o ≡ deleting
unfolding observe determine_event transition new
observe_deleted pending o h = ground arith
observe_deleted p o h = ground arith

observe_deleting : (o : Observation) → observe deleting o ≡ deleting
unfolding observe determine_event transition new
observe_deleting o = ground arith

run_deleting : (os : List Observation) → run deleting os ≡ deleting
unfolding run
run_deleting [] = refl
run_deleting (o ∷ os) = rw (observe_deleting o) (run_deleting os)

-- Once a deletion is observed the machine is in Deleting, and it stays there.
pub run_deleted :
    (p : Phase) (os rest : List Observation) (o : Observation)
    → o.deleted ≡ true
    → run p (os ++ o ∷ rest) ≡ deleting
unfolding run
run_deleted p [] rest o h = rw (observe_deleted p o h, run) (run_deleting rest)
run_deleted p (x ∷ os) rest o h = run_deleted (observe p x) os rest o h

-- The machine enters Running only on an observation with all desired replicas ready.
pub observe-running :
    (p : Phase) (o : Observation) → p ≢ running → observe p o ≡ running → AllReady o.context
unfolding observe determine_event transition new
observe-running pending o n h = ground (arith, all_replicas_ready_iff o.context)
observe-running p o n h = ground (arith, all_replicas_ready_iff o.context)

-- All desired replicas are ready, the spec is the one that was applied, and nothing is deleted.
pub record IsHealthy (o : Observation) : Type 0 where
  pub ready : Context.all_replicas_ready o.context ≡ true
  pub applied : o.context.spec_changed ≡ false
  pub kept : o.deleted ≡ false

abbrev pub All {ℓ κ} : {A : Type ℓ} → (A → Type κ) → List A → Type κ
All P [] = Unit
All P (x ∷ xs) = P x × All P xs

-- The phases from which the machine gets on when its replicas are ready.
abbrev pub IsUnderway : Phase → Type 0
IsUnderway p = (p ≡ creating) ⊎ (p ≡ updating) ⊎ (p ≡ degraded) ⊎ (p ≡ running)

observe_healthy : (p : Phase) (o : Observation) → IsUnderway p → IsHealthy o → observe p o ≡ running
unfolding observe determine_event transition new
observe_healthy p o u h = ground arith

run_healthy : (os : List Observation) → All IsHealthy os → run running os ≡ running
unfolding run
run_healthy [] h = refl
run_healthy (o ∷ os) h =
    rw (observe_healthy running o (inr (inr (inr refl))) h.0) (run_healthy os h.1)

-- From Creating, Updating, Degraded or Running, observations that are all healthy (all desired
-- replicas ready, the spec unchanged, no deletion) and of which there is at least one lead to
-- Running.
pub run_recovers :
    (p : Phase) (o : Observation) (os : List Observation)
    → IsUnderway p
    → All IsHealthy (o ∷ os)
    → run p (o ∷ os) ≡ running
unfolding run
run_recovers p o os u h = rw (observe_healthy p o u h.0) (run_healthy os h.1)

observe_pending :
    (o : Observation)
    → Context.all_replicas_ready o.context ≡ true
    → o.deleted ≡ false
    → observe pending o ≡ pending
unfolding observe determine_event transition new
observe_pending o r k = ground arith

-- An observation without a deletion whose replicas are all ready.
abbrev pub IsReady : Observation → Type 0
IsReady o = (Context.all_replicas_ready o.context ≡ true) × (o.deleted ≡ false)

-- A pending machine stays pending over any sequence of observations without a deletion whose
-- replicas are all ready.
pub run_pending_stuck : (os : List Observation) → All IsReady os → run pending os ≡ pending
unfolding run
run_pending_stuck [] h = refl
run_pending_stuck (o ∷ os) h = rw (observe_pending o h.0.0 h.0.1) (run_pending_stuck os h.1)

observe_failed : (o : Observation) → IsReady o → observe failed o ≡ pending
unfolding observe determine_event transition new
observe_failed o h = ground arith

-- A failed machine goes to Pending on an observation without a deletion whose replicas are all
-- ready, and is still there after any number of further such observations.
pub run_failed_stuck :
    (o : Observation) (os : List Observation) → All IsReady (o ∷ os) → run failed (o ∷ os) ≡ pending
unfolding run
run_failed_stuck o os h = rw (observe_failed o h.0) (run_pending_stuck os h.1)
