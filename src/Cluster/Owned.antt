-- ===== src/Cluster/Owned.antt =====
-- The ConfigMap, the Deployment and the Service that src/controller/reconciler.rs owns, as the API
-- server stores them: the fields that the operator applies.
use k8s_operator_template.Prelude.{String, ◌≡◌, ◌∙◌, ◌⊎◌, inl, inr, Option, some}
use k8s_operator_template.Prelude.Result.{IsOk}
use k8s_operator_template.Crd.{MyResource}
use k8s_operator_template.Resources.Types.{ConfigMap, Deployment, Service}
use k8s_operator_template.Resources.Generate.{
  generate_configmap, generate_deployment, generate_service,
}
use k8s_operator_template.Platform.Requests.{
  Platform, PatchParams, Request, apply_configmap, apply_deployment, apply_service,
}
use k8s_operator_template.Platform.Exec.{State}
use k8s_operator_template.Platform.Contracts.{Keeps}
use k8s_operator_template.Reconciler.Loop.{namespace_of}
use k8s_operator_template.Reconciler.Moves.{Allowed}

-- The requests that do not apply an object of the name.
abbrev pub SparesConfigmap : String → String → Request → Type 0
SparesConfigmap namespace name (apply_configmap ns n params made) =
    ¬ ((ns ≡ namespace) × (n ≡ name))
SparesConfigmap namespace name _ = Unit

abbrev pub SparesDeployment : String → String → Request → Type 0
SparesDeployment namespace name (apply_deployment ns n params made) =
    ¬ ((ns ≡ namespace) × (n ≡ name))
SparesDeployment namespace name _ = Unit

abbrev pub SparesService : String → String → Request → Type 0
SparesService namespace name (apply_service ns n params made) = ¬ ((ns ≡ namespace) × (n ≡ name))
SparesService namespace name _ = Unit

-- The documented behaviour of server-side apply for one object, which `apply` writes: the object is
-- as applied when the request succeeds, it is that or unchanged when the request fails, and other
-- requests and the clock leave it alone.
pub record IsApplied (P : Platform) {Made : Type 0} (apply : PatchParams → Made → Request)
    (Spares : Request → Type 0) (stored : P.World → Option Made) : Type 0 where
  pub takes :
      (w : P.World) (params : PatchParams) (made : Made)
      → IsOk (P.perform (apply params made) w).0
      → stored (P.perform (apply params made) w).1 ≡ some made
  pub tries :
      (w : P.World) (params : PatchParams) (made : Made)
      → (stored (P.perform (apply params made) w).1 ≡ stored w)
        ⊎ (stored (P.perform (apply params made) w).1 ≡ some made)
  pub spares : (q : Request) (w : P.World) → Spares q → stored (P.perform q w).1 ≡ stored w
  pub now_keeps : (w : P.World) → stored (P.now w).1 ≡ stored w
  pub timer_keeps : (w : P.World) → stored (P.start_timer w).1 ≡ stored w
  pub elapsed_keeps : (t : P.Instant) (w : P.World) → stored (P.elapsed t w).1 ≡ stored w

-- The three objects of the name, as stored.
pub record Owned (P : Platform) (namespace name : String) : Type 0 where
  pub configmap : P.World → Option ConfigMap
  pub deployment : P.World → Option Deployment
  pub service : P.World → Option Service
  pub applies_configmap :
      IsApplied P (apply_configmap namespace name) (SparesConfigmap namespace name) configmap
  pub applies_deployment :
      IsApplied P (apply_deployment namespace name) (SparesDeployment namespace name) deployment
  pub applies_service :
      IsApplied P (apply_service namespace name) (SparesService namespace name) service

-- The three objects are those generated from `obj`.
pub record IsProvisioned {P : Platform} {namespace name : String} (owned : Owned P namespace name)
    (obj : MyResource) (w : P.World) : Type 0 where
  pub configmap : owned.configmap w ≡ some (generate_configmap obj)
  pub deployment : owned.deployment w ≡ some (generate_deployment obj)
  pub service : owned.service w ≡ some (generate_service obj)

module _ {P : Platform} {Made : Type 0} {apply : PatchParams → Made → Request}
    {Spares : Request → Type 0} {stored : P.World → Option Made}
    (law : IsApplied P apply Spares stored) where
  -- An apply of what is stored already.
  again :
      (w : P.World) (params : PatchParams) (made : Made)
      → stored w ≡ some made
      → stored (P.perform (apply params made) w).1 ≡ some made
  again w params made h = elim (law.tries w params made) [ inl same ↦ same ∙ h | inr new ↦ new ]

module _ {P : Platform} (obj : MyResource)
    (owned : Owned P (namespace_of obj) obj.metadata.name_any) where
  configmap_kept :
      (q : Request) (w : P.World)
      → Allowed obj q
      → owned.configmap w ≡ some (generate_configmap obj)
      → owned.configmap (P.perform q w).1 ≡ some (generate_configmap obj)
  configmap_kept (apply_configmap ns n params made) w may h =
      rw (may.0.0, may.0.1, may.3) (again owned.applies_configmap w params _ h)
  configmap_kept q w may h = owned.applies_configmap.spares q w tt ∙ h

  deployment_kept :
      (q : Request) (w : P.World)
      → Allowed obj q
      → owned.deployment w ≡ some (generate_deployment obj)
      → owned.deployment (P.perform q w).1 ≡ some (generate_deployment obj)
  deployment_kept (apply_deployment ns n params made) w may h =
      rw (may.0.0, may.0.1, may.3) (again owned.applies_deployment w params _ h)
  deployment_kept q w may h = owned.applies_deployment.spares q w tt ∙ h

  service_kept :
      (q : Request) (w : P.World)
      → Allowed obj q
      → owned.service w ≡ some (generate_service obj)
      → owned.service (P.perform q w).1 ≡ some (generate_service obj)
  service_kept (apply_service ns n params made) w may h =
      rw (may.0.0, may.0.1, may.3) (again owned.applies_service w params _ h)
  service_kept q w may h = owned.applies_service.spares q w tt ∙ h

  -- The requests of a visit to the resource keep its objects as they are generated.
  pub IsProvisioned-Keeps : Keeps (Allowed obj) (λ (s : State P). IsProvisioned owned obj s.world)
  IsProvisioned-Keeps = record {
    on_send = λ q s may h. record {
      configmap = configmap_kept q s.world may h.configmap;
      deployment = deployment_kept q s.world may h.deployment;
      service = service_kept q s.world may h.service;
    };
    on_now = λ s h. record {
      configmap = owned.applies_configmap.now_keeps s.world ∙ h.configmap;
      deployment = owned.applies_deployment.now_keeps s.world ∙ h.deployment;
      service = owned.applies_service.now_keeps s.world ∙ h.service;
    };
    on_start_timer = λ s h. record {
      configmap = owned.applies_configmap.timer_keeps s.world ∙ h.configmap;
      deployment = owned.applies_deployment.timer_keeps s.world ∙ h.deployment;
      service = owned.applies_service.timer_keeps s.world ∙ h.service;
    };
    on_elapsed = λ t s h. record {
      configmap = owned.applies_configmap.elapsed_keeps t s.world ∙ h.configmap;
      deployment = owned.applies_deployment.elapsed_keeps t s.world ∙ h.deployment;
      service = owned.applies_service.elapsed_keeps t s.world ∙ h.service;
    };
    on_health = λ f s h. h;
  }
