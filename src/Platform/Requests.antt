-- ===== src/Platform/Requests.antt =====
-- The requests that the operator sends through `kube`, and the platform that answers them.
use k8s_operator_template.Prelude.{String, Bool, Option}
use k8s_operator_template.Prelude.Json.{Json}
use k8s_operator_template.Prelude.Result.{Result}
use k8s_operator_template.Crd.{MyResource, MyResourceStatus}
use k8s_operator_template.Errors.{ErrorStatus, KubeError}
use k8s_operator_template.Resources.Types.{ConfigMap, Deployment, Service}
use k8s_operator_template.Health.{Prometheus}

-- `PatchParams::apply(field_manager)`, with or without `.force()`.
pub record PatchParams : Type 0 where
  pub field_manager : String
  pub force : Bool

pub data EventType : Type 0 where
  normal warning : EventType

-- A Kubernetes event; its `secondary` is always `None`.
pub record Event : Type 0 where
  pub type : EventType
  pub reason : String
  pub note : Option String
  pub action : String

pub record Reporter : Type 0 where
  pub controller : String
  pub instance_name : Option String

-- The requests, each with the namespace and the name that it goes to.
pub data Request : Type 0 where
  get_resource : String → String → Request
  merge_patch : String → String → PatchParams → Json → Request
  patch_status : String → String → PatchParams → MyResourceStatus → Request
  get_deployment : String → String → Request
  apply_configmap : String → String → PatchParams → ConfigMap → Request
  apply_deployment : String → String → PatchParams → Deployment → Request
  apply_service : String → String → PatchParams → Service → Request
  publish : Reporter → Event → MyResource → Request

-- What a request is answered with when it succeeds.
abbrev pub Answer : Request → Type 0
Answer (get_resource namespace name) = MyResource
Answer (get_deployment namespace name) = Deployment
Answer _ = Unit

pub record Platform : Type 1 where
  pub World : Type 0
  pub perform : (q : Request) → World → Result (Answer q) KubeError × World
  pub status_not_found : ErrorStatus → Bool
  pub show_kube : KubeError → String
  pub now : World → String × World
  pub prometheus : Prometheus
  pub Instant : Type 0
  pub start_timer : World → Instant × World
  pub elapsed : Instant → World → prometheus.Seconds × World
