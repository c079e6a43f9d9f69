-- ===== src/Reconciler/Steady/Actions.antt =====
-- The actions of src/controller/reconciler.rs on a steady platform.
use k8s_operator_template.Prelude.{ℤ, String, ◌≡◌, refl, List, ◌∷◌, Option}
use k8s_operator_template.Prelude.Result.{Result, ok}
use k8s_operator_template.Crd.{MyResource, MyResourceStatus, Phase}
use k8s_operator_template.Errors.{KubeError}
use k8s_operator_template.Resources.Types.{ConfigMap, Deployment, Service}
use k8s_operator_template.Resources.Generate.{
  generate_configmap, generate_deployment, generate_service,
}
use k8s_operator_template.Platform.Requests.{
  Platform, PatchParams, Request, Event, publish, get_resource, patch_status, get_deployment,
  apply_configmap, apply_deployment, apply_service,
}
use k8s_operator_template.Platform.Exec.{State, pure, send, call, timestamp, ◌>>=◌}
use k8s_operator_template.Platform.Events.{Context, publish_normal_event, publish_warning_event}
use k8s_operator_template.Platform.Reaches.{
  Reaches, Reaches-bind, Reaches-send, Reaches-call, Quiet, Quiet-pure, Quiet-bind,
}
use k8s_operator_template.Platform.Contracts.{Any}
use k8s_operator_template.Reconciler.Actions.{
  apply_params, forced_params, ready_of, ready_count, create_owned_resources, check_ready_replicas,
  update_status, phase_conditions,
}
use k8s_operator_template.Reconciler.Loop.{namespace_of}

-- The platform answers every request about `obj`: its deployment is always `d` and the stored
-- object always has the generation of `current`.
pub record IsSteady (P : Platform) (obj current : MyResource) (d : Deployment) : Type 0 where
  pub reads_deployment :
      (w : P.World)
      → (P.perform (get_deployment (namespace_of obj) obj.metadata.name_any) w).0 ≡ ok d
  pub reads_resource :
      (w : P.World)
      → (P.perform (get_resource (namespace_of obj) obj.metadata.name_any) w).0 ≡ ok current
  pub writes_status :
      (w : P.World) (params : PatchParams) (status : MyResourceStatus)
      → (P.perform (patch_status (namespace_of obj) obj.metadata.name_any params status) w).0
        ≡ ok tt
  pub applies_configmap :
      (w : P.World) (params : PatchParams) (made : ConfigMap)
      → (P.perform (apply_configmap (namespace_of obj) obj.metadata.name_any params made) w).0
        ≡ ok tt
  pub applies_deployment :
      (w : P.World) (params : PatchParams) (made : Deployment)
      → (P.perform (apply_deployment (namespace_of obj) obj.metadata.name_any params made) w).0
        ≡ ok tt
  pub applies_service :
      (w : P.World) (params : PatchParams) (made : Service)
      → (P.perform (apply_service (namespace_of obj) obj.metadata.name_any params made) w).0 ≡ ok tt

-- The latest request records a phase, a ready count and the generation that was read, with the
-- conditions of that phase.
pub record Records (obj current : MyResource) (q : Phase) (n : ℤ) (message : Option String)
    (log : List Request) : Type 0 where
  pub now : String
  pub earlier : List Request
  pub latest :
      log
      ≡ patch_status (namespace_of obj) obj.metadata.name_any apply_params (record {
        phase = q;
        ready_replicas = n;
        observed_generation = current.metadata.generation;
        conditions = phase_conditions now q message current.metadata.generation;
      })
        ∷ earlier

module _ {P : Platform} (ctx : Context) (obj current : MyResource) (d : Deployment)
    (steady : IsSteady P obj current d) where
  counted :
      (r : Result Deployment KubeError) (s : State P)
      → r ≡ ok d
      → Quiet (ready_count r) s (λ n. n ≡ ready_of d)
  counted r s e = rw e (Quiet-pure (ready_of d) s _ refl)

  pub check-Quiet :
      (s : State P) → Quiet (check_ready_replicas obj (namespace_of obj)) s (λ n. n ≡ ready_of d)
  unfolding check_ready_replicas
  check-Quiet s =
      let q = get_deployment (namespace_of obj) obj.metadata.name_any in
      Quiet-bind (send q) ready_count s (λ r. r ≡ ok d) _
        (Reaches-send q s _ (steady.reads_deployment s.world, refl)) λ r t h. counted r t h

  published :
      (e : Event) (s : State P)
      → Quiet {P = P} (do r ← send (publish ctx.reporter e obj); pure tt) s Any
  published e s =
      Quiet-bind (send (publish ctx.reporter e obj)) (λ r. pure tt) s Any Any
        (Reaches-send (publish ctx.reporter e obj) s _ (tt, refl)) λ r t h. Quiet-pure tt t Any tt

  pub normal-Quiet :
      (reason action : String) (text : Option String) (s : State P)
      → Quiet (publish_normal_event ctx obj reason action text) s Any
  unfolding publish_normal_event
  normal-Quiet reason action text s = published _ s

  pub warning-Quiet :
      (reason action : String) (text : Option String) (s : State P)
      → Quiet (publish_warning_event ctx obj reason action text) s Any
  unfolding publish_warning_event
  warning-Quiet reason action text s = published _ s

  pub create-Quiet : (s : State P) → Quiet (create_owned_resources obj (namespace_of obj)) s Any
  unfolding create_owned_resources
  create-Quiet s =
      let namespace = namespace_of obj in
      let name = obj.metadata.name_any in
      let maps = apply_configmap namespace name forced_params (generate_configmap obj) in
      let deploys = apply_deployment namespace name forced_params (generate_deployment obj) in
      let serves = apply_service namespace name forced_params (generate_service obj) in
      Quiet-bind (call maps) (λ _. call deploys >>= λ _. call serves) s Any Any
        (Reaches-call maps s tt _ (steady.applies_configmap s.world _ _) (tt, refl))
        λ _ t _.
          Quiet-bind (call deploys) (λ _. call serves) t Any Any
            (Reaches-call deploys t tt _ (steady.applies_deployment t.world _ _) (tt, refl))
            λ _ u _. Reaches-call serves u tt _ (steady.applies_service u.world _ _) (tt, refl)

  -- The status that is written once the generation and the time are known.
  abbrev written : Phase → ℤ → Option String → MyResource → String → MyResourceStatus
  written q n message read now = record {
    phase = q;
    ready_replicas = n;
    observed_generation = read.metadata.generation;
    conditions = phase_conditions now q message read.metadata.generation;
  }

  write-Reaches :
      (q : Phase) (n : ℤ) (message : Option String) (read : MyResource) (now : String)
      (s t : State P)
      → read ≡ current
      → t.health ≡ s.health
      → Reaches
          (call (
            patch_status
              (namespace_of obj)
              obj.metadata.name_any
              apply_params
              (written q n message read now)))
          t
          (λ _ u. Records obj current q n message u.log × (u.health ≡ s.health))
  write-Reaches q n message read now s t e same = rw e (
      Reaches-call
        (patch_status (namespace_of obj) obj.metadata.name_any apply_params
          (written q n message current now))
        t tt _ (steady.writes_status t.world _ _)
        (record { now = now; earlier = t.log; latest = refl }, same))

  stamp-Reaches :
      (s t : State P) → t.health ≡ s.health → Reaches timestamp t (λ _ u. u.health ≡ s.health)
  unfolding timestamp
  stamp-Reaches s t same = record {
    result = (P.now t.world).0;
    end = record t { world = (P.now t.world).1 };
    runs = refl;
    holds = same;
  }

  pub update-Reaches :
      (q : Phase) (n : ℤ) (message : Option String) (s : State P)
      → Reaches
          (update_status (namespace_of obj) obj.metadata.name_any q n message)
          s
          (λ _ t. Records obj current q n message t.log × (t.health ≡ s.health))
  unfolding update_status
  update-Reaches q n message s =
      let read = get_resource (namespace_of obj) obj.metadata.name_any in
      Reaches-bind (call read) _ s (λ r t. (r ≡ current) × (t.health ≡ s.health)) _
        (Reaches-call read s current _ (steady.reads_resource s.world) (refl, refl))
        λ r t h.
          Reaches-bind timestamp _ t (λ _ u. u.health ≡ s.health) _ (stamp-Reaches s t h.1)
            λ now u same. write-Reaches q n message r now s u h.0 same
