-- ===== src/Tests/Provisions.antt =====
-- A platform that stores the owned objects, and the theorem on them at a resource being created.
use k8s_operator_template.Prelude.{
  true, pos, String, Bool, ◌≡◌, refl, inr, Option, none, some, [], ◌&&◌, str_eq, str_eq_iff, ◌==◌,
  arith, if◌then◌else◌,
}
use k8s_operator_template.Prelude.Result.{Result, ok, IsOk}
use k8s_operator_template.Crd.{MyResource, creating, running}
use k8s_operator_template.Errors.{KubeError}
use k8s_operator_template.Health.{new_health}
use k8s_operator_template.Resources.Types.{ConfigMap, Deployment, Service}
use k8s_operator_template.Platform.Requests.{
  Platform, Request, Answer, get_resource, merge_patch, patch_status, get_deployment,
  apply_configmap, apply_deployment, apply_service, publish,
}
use k8s_operator_template.Platform.Exec.{
  State, ◌>>=◌, start_timer, send, attempt, call, timestamp, elapsed, with_health,
}
use k8s_operator_template.Reconciler.Loop.{
  spec_changed, reconcile, has_finalizer, progress, next_phase, from_creating, finish,
}
use k8s_operator_template.Reconciler.Actions.{
  create_owned_resources, update_status, check_ready_replicas,
}
use k8s_operator_template.Platform.Events.{publish_normal_event, publish_warning_event}
use k8s_operator_template.Reconciler.Moves.{IsLive, while_creating}
use k8s_operator_template.Cluster.Owned.{
  Owned, SparesConfigmap, SparesDeployment, SparesService, IsProvisioned,
}
use k8s_operator_template.Reconciler.Steady.Actions.{IsSteady}
use k8s_operator_template.Cluster.Rollout.{Rolls, change-Rolls}
use k8s_operator_template.Cluster.Provision.{done, more, with_status, visits-provision}
use k8s_operator_template.Tests.Sample.{fresh, in_phase}
use k8s_operator_template.Tests.Platforms.{families, controller, deployment_with}

record Shelf : Type 0 where
  pub configmap : Option ConfigMap
  pub deployment : Option Deployment
  pub service : Option Service

abbrev is_demo : String → String → Bool
is_demo namespace name = str_eq namespace "apps" && str_eq name "demo"

abbrev put : {A : Type 0} → String → String → A → Option A → Option A
put namespace name made before = if is_demo namespace name then some made else before

abbrev keep : (q : Request) → Shelf → Result (Answer q) KubeError × Shelf
keep (get_resource _ _) w = (ok (fresh (pos 3)), w)
keep (merge_patch _ _ _ _) w = (ok tt, w)
keep (patch_status _ _ _ _) w = (ok tt, w)
keep (get_deployment _ _) w = (ok (deployment_with (pos 3)), w)
keep (apply_configmap ns n _ made) w = (ok tt, record w { configmap = put ns n made w.configmap })
keep (apply_deployment ns n _ made) w =
    (ok tt, record w { deployment = put ns n made w.deployment })
keep (apply_service ns n _ made) w = (ok tt, record w { service = put ns n made w.service })
keep (publish _ _ _) w = (ok tt, w)

abbrev keeper : Platform
keeper = record {
  World = Shelf;
  perform = keep;
  status_not_found = λ s. s.code == 404;
  show_kube = λ e. "kube";
  now = λ w. ("2025-01-01T00:00:00Z", w);
  prometheus = families;
  Instant = Unit;
  start_timer = λ w. (tt, w);
  elapsed = λ t w. (1, w);
}

put_elsewhere :
    {A : Type 0} (ns n : String) (made : A) (before : Option A)
    → ¬ ((ns ≡ "apps") × (n ≡ "demo"))
    → put ns n made before ≡ before
put_elsewhere ns n made before h = ground (arith, str_eq_iff ns "apps", str_eq_iff n "demo")

spares_configmap :
    (q : Request) (w : Shelf)
    → SparesConfigmap "apps" "demo" q
    → (keep q w).1.configmap ≡ w.configmap
spares_configmap (apply_configmap ns n params made) w h = put_elsewhere ns n made w.configmap h
spares_configmap q w h = refl

spares_deployment :
    (q : Request) (w : Shelf)
    → SparesDeployment "apps" "demo" q
    → (keep q w).1.deployment ≡ w.deployment
spares_deployment (apply_deployment ns n params made) w h = put_elsewhere ns n made w.deployment h
spares_deployment q w h = refl

spares_service :
    (q : Request) (w : Shelf) → SparesService "apps" "demo" q → (keep q w).1.service ≡ w.service
spares_service (apply_service ns n params made) w h = put_elsewhere ns n made w.service h
spares_service q w h = refl

owned_demo : Owned keeper "apps" "demo"
owned_demo = record {
  configmap = λ w. w.configmap;
  deployment = λ w. w.deployment;
  service = λ w. w.service;
  applies_configmap = record {
    takes = λ w params made h. refl;
    tries = λ w params made. inr refl;
    spares = spares_configmap;
    now_keeps = λ w. refl;
    timer_keeps = λ w. refl;
    elapsed_keeps = λ t w. refl;
  };
  applies_deployment = record {
    takes = λ w params made h. refl;
    tries = λ w params made. inr refl;
    spares = spares_deployment;
    now_keeps = λ w. refl;
    timer_keeps = λ w. refl;
    elapsed_keeps = λ t w. refl;
  };
  applies_service = record {
    takes = λ w params made h. refl;
    tries = λ w params made. inr refl;
    spares = spares_service;
    now_keeps = λ w. refl;
    timer_keeps = λ w. refl;
    elapsed_keeps = λ t w. refl;
  };
}

-- Nothing is stored.
abbrev bare : State keeper
bare = record {
  world = record { configmap = none; deployment = none; service = none };
  log = [];
  health = some (new_health families);
}

creating-IsLive : IsLive (in_phase creating)
unfolding has_finalizer
creating-IsLive = record { kept = refl; claimed = refl }

creation_succeeds : IsOk (reconcile controller (in_phase creating) bare).0
unfolding reconcile has_finalizer ◌>>=◌ start_timer progress next_phase from_creating
    create_owned_resources publish_normal_event publish_warning_event send finish attempt
    update_status call timestamp elapsed with_health check_ready_replicas
creation_succeeds = tt

visits-provision_example :
    IsProvisioned owned_demo
      (in_phase creating)
      (reconcile controller
        (with_status (in_phase creating) none)
        (reconcile controller (in_phase creating) bare).1).1.world
visits-provision_example =
    visits-provision controller (in_phase creating) owned_demo bare creating-IsLive
      (while_creating refl) creation_succeeds (more none done)

keeper-IsSteady : (obj : MyResource) → IsSteady keeper obj (fresh (pos 3)) (deployment_with (pos 3))
keeper-IsSteady obj = record {
  reads_deployment = λ w. refl;
  reads_resource = λ w. refl;
  writes_status = λ w params status. refl;
  applies_configmap = λ w params made. refl;
  applies_deployment = λ w params made. refl;
  applies_service = λ w params made. refl;
}

-- The generation is one more than the one observed.
abbrev scaled : MyResource
scaled = record (in_phase running) {
  metadata = record (in_phase running).metadata { generation = some (pos 3) };
  spec = record (in_phase running).spec { replicas = pos 5 };
}

scaled-IsLive : IsLive scaled
unfolding has_finalizer
scaled-IsLive = record { kept = refl; claimed = refl }

scaled_changed : spec_changed scaled ≡ true
unfolding spec_changed
scaled_changed = refl

change-Rolls_example : Rolls controller (fresh (pos 3)) scaled owned_demo bare
change-Rolls_example =
    change-Rolls controller (fresh (pos 3)) (deployment_with (pos 3)) scaled owned_demo bare
      (keeper-IsSteady scaled) scaled-IsLive refl scaled_changed
