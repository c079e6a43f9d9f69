-- ===== src/Reconciler/Settles.antt =====
-- Successive visits of src/controller/reconciler.rs to one resource on a steady platform, each to
-- the resource with the status or the finalizers that the visit before it patched.
pub mod Creation
use k8s_operator_template.Prelude.{
  ℕ, zero, suc, ℤ, true, false, ◌≡◌, refl, ap, ◌∙◌, ◌≢◌, arith, ◌≤?◌, Option, none, some, String,
  List, [], ◌∷◌,
}
use k8s_operator_template.Prelude.Result.{ok}
use k8s_operator_template.Crd.{
  MyResource, MyResourceStatus, Phase, pending, creating, running, updating, degraded, failed,
  deleting,
}
use k8s_operator_template.Errors.{Duration, from_secs}
use k8s_operator_template.Resources.Types.{Deployment}
use k8s_operator_template.Validation.Bounds.{InBounds}
use k8s_operator_template.Platform.Requests.{Platform, PatchParams, Request, patch_status}
use k8s_operator_template.Platform.Exec.{State}
use k8s_operator_template.Platform.Events.{Context}
use k8s_operator_template.Reconciler.Actions.{
  phase_conditions, Action, requeue, finalizer, ready_of,
}
use k8s_operator_template.Reconciler.Loop.{
  namespace_of, reconcile, phase_of, generation_ne, spec_changed, requeue_duration,
}
use k8s_operator_template.Reconciler.Finalizer.{claim_patch}
use k8s_operator_template.Reconciler.Moves.{IsLive}
use k8s_operator_template.Reconciler.Steady.Actions.{IsSteady}
use k8s_operator_template.Reconciler.Steady.Phases.{decide}
use k8s_operator_template.Reconciler.Steady.Visit.{reconcile-Visited}

-- The resource with the operator's finalizer alone.
abbrev pub claimed_as : MyResource → MyResource
claimed_as obj = record obj { metadata = record obj.metadata { finalizers = finalizer ∷ [] } }

-- Visits that succeed, with their actions, each to the resource with what the last patch before it
-- wrote: a status, or the operator's finalizer.
pub data Visits {P : Platform} (ctx : Context)
    : MyResource → State P → List Action → MyResource → State P → Type 0 where
  stop : {obj : MyResource} {s : State P} → Visits ctx obj s [] obj s
  visit :
      {obj after : MyResource} {s t u : State P} {rest : List Action} {a : Action}
      {params : PatchParams} {status : MyResourceStatus} {earlier : List Request}
      → reconcile ctx obj s ≡ (ok a, t)
      → t.log ≡ patch_status (namespace_of obj) obj.metadata.name_any params status ∷ earlier
      → Visits ctx (record obj { status = some status }) t rest after u
      → Visits ctx obj s (a ∷ rest) after u
  claiming_visit :
      {obj after : MyResource} {s t u : State P} {rest : List Action} {a : Action}
      {earlier : List Request}
      → reconcile ctx obj s ≡ (ok a, t)
      → t.log ≡ claim_patch obj ∷ earlier
      → Visits ctx (claimed_as obj) t rest after u
      → Visits ctx obj s (a ∷ rest) after u

-- Visits with these actions lead from `obj` to a resource in the phase `q`.
pub record Leads {P : Platform} (ctx : Context) (obj : MyResource) (s : State P)
    (actions : List Action) (q : Phase) : Type 0 where
  pub after : MyResource
  pub end : State P
  pub path : Visits ctx obj s actions after end
  pub phase : phase_of after.status ≡ q

abbrev pub repeated : {A : Type 0} → ℕ → A → List A
repeated zero a = []
repeated (suc k) a = a ∷ repeated k a

same_generation : (g : Option ℤ) → generation_ne g g ≡ false
same_generation g = ground arith

-- Two decisions with enough replicas, the second one with the spec observed.
two_decisions :
    (obj after : MyResource) (n : ℤ) (p : Phase)
    → after.spec.replicas ≡ obj.spec.replicas
    → spec_changed after ≡ false
    → (obj.spec.replicas ≤? n) ≡ true
    → p ≢ failed
    → p ≢ deleting
    → decide after n (decide obj n p) ≡ running
unfolding decide
two_decisions obj after n pending same seen enough f d = ground arith
two_decisions obj after n creating same seen enough f d = ground arith
two_decisions obj after n running same seen enough f d = ground arith
two_decisions obj after n updating same seen enough f d = ground arith
two_decisions obj after n degraded same seen enough f d = ground arith
two_decisions obj after n failed same seen enough f d = absurd (f refl)
two_decisions obj after n deleting same seen enough f d = absurd (d refl)

-- The delay after a visit to `obj`, when `n` replicas are ready.
abbrev pub delay_after : MyResource → ℤ → Duration
delay_after obj n = requeue_duration (decide obj n (phase_of obj.status))

-- The delays after the phases that a resource stays in.
running_waits : (q : Phase) → q ≡ running → requeue_duration q ≡ from_secs 60
unfolding requeue_duration
running_waits q h = rw h

failed_waits : (q : Phase) → q ≡ failed → requeue_duration q ≡ from_secs 300
unfolding requeue_duration
failed_waits q h = rw h

-- The status that a visit to `obj` records.
abbrev pub status_of : MyResource → MyResource → ℤ → String → MyResourceStatus
status_of obj current n now =
    let q = decide obj n (phase_of obj.status) in
    record {
      phase = q;
      ready_replicas = n;
      observed_generation = current.metadata.generation;
      conditions = phase_conditions now q none current.metadata.generation;
    }

pub IsLive-after :
    (obj : MyResource) (o : Option MyResourceStatus)
    → IsLive obj
    → IsLive (record obj { status = o })
IsLive-after obj o alive = record { kept = alive.kept; claimed = alive.claimed }

observed_spec :
    (obj current : MyResource) (n : ℤ) (now : String)
    → current.metadata.generation ≡ obj.metadata.generation
    → spec_changed (record obj { status = some (status_of obj current n now) }) ≡ false
unfolding spec_changed
observed_spec obj current n now observed = rw observed (same_generation obj.metadata.generation)

still_failed :
    (obj : MyResource) (n : ℤ)
    → phase_of obj.status ≡ failed
    → decide obj n (phase_of obj.status) ≡ failed
unfolding decide
still_failed obj n h = rw h

module _ {P : Platform} (ctx : Context) (current : MyResource) (d : Deployment) where
  pub IsSteady-after :
      (obj : MyResource) (o : Option MyResourceStatus)
      → IsSteady P obj current d
      → IsSteady P (record obj { status = o }) current d
  IsSteady-after obj o steady = record {
    reads_deployment = steady.reads_deployment;
    reads_resource = steady.reads_resource;
    writes_status = steady.writes_status;
    applies_configmap = steady.applies_configmap;
    applies_deployment = steady.applies_deployment;
    applies_service = steady.applies_service;
  }

  -- One visit, and then what its status leads to.
  one_visit :
      (obj : MyResource) (s : State P) (delay : Duration) (rest : List Action) (q : Phase)
      → IsSteady P obj current d
      → IsLive obj
      → (phase_of obj.status ≡ pending → InBounds obj.spec.replicas)
      → ((now : String) (t : State P)
          → Leads ctx
              (record obj { status = some (status_of obj current (ready_of d) now) })
              t
              rest
              q)
      → requeue_duration (decide obj (ready_of d) (phase_of obj.status)) ≡ delay
      → Leads ctx obj s (requeue delay ∷ rest) q
  one_visit obj s delay rest q steady alive fits next delayed =
      let v = reconcile-Visited ctx obj current d steady s alive fits in
      let later = next v.holds.status.now v.end in
      record {
        after = later.after;
        end = later.end;
        path =
            visit (v.runs ∙ ap (λ a. (ok a, v.end)) (v.holds.action ∙ ap requeue delayed))
              v.holds.status.latest later.path;
        phase = later.phase;
      }

  -- On a steady platform with enough ready replicas, where the stored object has the generation of
  -- the resource, two visits bring a live resource whose spec is within the bounds to Running, from
  -- every phase but Failed and Deleting: the first asks for the second after the delay of its
  -- phase, and the second for the next one in 60 seconds.
  pub reconcile-settles :
      (obj : MyResource) (s : State P)
      → IsSteady P obj current d
      → IsLive obj
      → current.metadata.generation ≡ obj.metadata.generation
      → InBounds obj.spec.replicas
      → (obj.spec.replicas ≤? ready_of d) ≡ true
      → phase_of obj.status ≢ failed
      → phase_of obj.status ≢ deleting
      → Leads ctx obj s
          (requeue (delay_after obj (ready_of d)) ∷ requeue (from_secs 60) ∷ [])
          running
  reconcile-settles obj s steady alive observed fits enough f g =
      one_visit obj s _ _ running steady alive (λ _. fits)
        (λ now t.
          let after = record obj { status = some (status_of obj current (ready_of d) now) } in
          let ends =
            two_decisions obj after (ready_of d) (phase_of obj.status) refl
              (observed_spec obj current (ready_of d) now observed) enough f g in
          one_visit after t (from_secs 60) [] running (IsSteady-after obj _ steady)
            (IsLive-after obj _ alive) (λ _. fits)
            (λ now' u. record { after = _; end = u; path = stop; phase = ends })
            (running_waits _ ends))
        refl

  -- A live resource that has Failed is still Failed after any number of visits on a steady
  -- platform, each of which asks for the next one in 300 seconds, whatever its spec and its
  -- replicas are.
  pub reconcile-stays_failed :
      (k : ℕ) (obj : MyResource) (s : State P)
      → IsSteady P obj current d
      → IsLive obj
      → phase_of obj.status ≡ failed
      → Leads ctx obj s (repeated k (requeue (from_secs 300))) failed
  reconcile-stays_failed zero obj s steady alive at = record {
    after = obj;
    end = s;
    path = stop;
    phase = at;
  }
  reconcile-stays_failed (suc k) obj s steady alive at =
      one_visit obj s (from_secs 300) _ failed steady alive (λ h. cc)
        (λ now t.
          reconcile-stays_failed k
            (record obj { status = some (status_of obj current (ready_of d) now) }) t
            (IsSteady-after obj _ steady) (IsLive-after obj _ alive)
            (still_failed obj (ready_of d) at))
        (failed_waits _ (still_failed obj (ready_of d) at))
