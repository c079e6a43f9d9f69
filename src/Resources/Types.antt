-- ===== src/Resources/Types.antt =====
-- The Kubernetes objects that src/resources/common.rs builds, with the fields that it sets; every
-- other field has its default. The status of a deployment is the part that the reconciler reads.
use k8s_operator_template.Prelude.{ℤ, ℕ, String, Bool, Option, List}
use k8s_operator_template.Prelude.BTreeMap.{BTreeMap}

pub record OwnerReference : Type 0 where
  pub api_version : String
  pub kind : String
  pub name : String
  pub uid : String
  pub controller : Option Bool
  pub block_owner_deletion : Option Bool

-- The metadata of a generated object.
pub record GeneratedMeta : Type 0 where
  pub name : Option String
  pub namespace : Option String
  pub labels : Option BTreeMap
  pub owner_references : Option (List OwnerReference)

pub record ConfigMap : Type 0 where
  pub metadata : GeneratedMeta
  pub entries : Option BTreeMap

pub record ContainerPort : Type 0 where
  pub container_port : ℕ
  pub name : Option String

pub record EnvVar : Type 0 where
  pub name : String
  pub value : Option String

pub record ResourceRequirements : Type 0 where
  pub limits : Option BTreeMap
  pub requests : Option BTreeMap

pub record SecurityContext : Type 0 where
  pub allow_privilege_escalation : Option Bool
  pub read_only_root_filesystem : Option Bool
  pub run_as_non_root : Option Bool
  pub drop_capabilities : List String

pub record Container : Type 0 where
  pub name : String
  pub image : Option String
  pub ports : List ContainerPort
  pub env : List EnvVar
  pub resources : Option ResourceRequirements
  pub security_context : Option SecurityContext

pub record PodSecurityContext : Type 0 where
  pub run_as_non_root : Option Bool
  pub run_as_user : Option ℕ
  pub fs_group : Option ℕ

pub record PodTemplateSpec : Type 0 where
  pub labels : Option BTreeMap
  pub containers : List Container
  pub security_context : Option PodSecurityContext

pub record DeploymentSpec : Type 0 where
  pub replicas : Option ℤ
  pub match_labels : Option BTreeMap
  pub template : PodTemplateSpec

pub record DeploymentStatus : Type 0 where
  pub ready_replicas : Option ℤ

pub record Deployment : Type 0 where
  pub metadata : GeneratedMeta
  pub spec : Option DeploymentSpec
  pub status : Option DeploymentStatus

pub data IntOrString : Type 0 where
  int : ℕ → IntOrString
  string : String → IntOrString

pub record ServicePort : Type 0 where
  pub port : ℕ
  pub target_port : Option IntOrString
  pub name : Option String

pub record ServiceSpec : Type 0 where
  pub type : Option String
  pub selector : Option BTreeMap
  pub ports : List ServicePort

pub record Service : Type 0 where
  pub metadata : GeneratedMeta
  pub spec : Option ServiceSpec
