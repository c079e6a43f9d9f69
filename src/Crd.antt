-- ===== src/Crd.antt =====
-- src/crd/mod.rs: the custom resource, its status and its phases.
pub mod Condition
use k8s_operator_template.Prelude.{ℤ, pos, String, Bool, true, false, Option, none, List, []}
use k8s_operator_template.Prelude.BTreeMap.{BTreeMap}

pub record MyResourceSpec : Type 0 where
  pub replicas : ℤ  -- i32
  pub message : String
  pub labels : BTreeMap

unfoldable default_replicas : ℤ
default_replicas = pos 1

pub data Phase : Type 0 where
  pending creating running updating degraded failed deleting : Phase

Phase-discrete : Discrete Phase
Phase-discrete = hlevel

-- The derived `PartialEq`.
abbrev pub phase_eq : Phase → Phase → Bool
phase_eq pending pending = true
phase_eq creating creating = true
phase_eq running running = true
phase_eq updating updating = true
phase_eq degraded degraded = true
phase_eq failed failed = true
phase_eq deleting deleting = true
phase_eq _ _ = false

-- `Display` of a phase.
unfoldable pub phase_name : Phase → String
phase_name pending = "Pending"
phase_name creating = "Creating"
phase_name running = "Running"
phase_name updating = "Updating"
phase_name degraded = "Degraded"
phase_name failed = "Failed"
phase_name deleting = "Deleting"

pub record MyResourceStatus : Type 0 where
  pub phase : Phase
  pub ready_replicas : ℤ  -- i32
  pub observed_generation : Option ℤ  -- i64
  pub conditions : List Condition.Condition

-- The derived `Default`: the first phase, no replicas, nothing observed.
unfoldable pub default_status : MyResourceStatus
default_status = record {
  phase = pending;
  ready_replicas = pos 0;
  observed_generation = none;
  conditions = [];
}

-- The metadata of an object as kube's accessors `name_any`, `namespace`, `uid` and `finalizers` and
-- the fields `generation` and `deletion_timestamp` show it.
pub record ObjectMeta : Type 0 where
  pub name_any : String
  pub namespace : Option String
  pub uid : Option String
  pub generation : Option ℤ  -- i64
  pub deletion_timestamp : Option String
  pub finalizers : List String

pub record MyResource : Type 0 where
  pub metadata : ObjectMeta
  pub spec : MyResourceSpec
  pub status : Option MyResourceStatus
