-- ===== src/Tests/Sample.antt =====
-- Resources to apply the theorems to.
use k8s_operator_template.Prelude.{ℤ, pos, String, none, some, Option, List, [], ◌∷◌}
use k8s_operator_template.Prelude.BTreeMap.{BTreeMap}
use k8s_operator_template.Crd.{
  MyResource, MyResourceSpec, MyResourceStatus, ObjectMeta, Phase, running,
}
use k8s_operator_template.Reconciler.Actions.{finalizer}

abbrev pub user_labels : BTreeMap
user_labels = ("team", "blue") ∷ []

abbrev spec_of : ℤ → MyResourceSpec
spec_of n = record { replicas = n; message = "hello"; labels = user_labels }

abbrev metadata_of : Option String → List String → ObjectMeta
metadata_of deletion finalizers = record {
  name_any = "demo";
  namespace = some "apps";
  uid = some "1";
  generation = some (pos 2);
  deletion_timestamp = deletion;
  finalizers = finalizers;
}

abbrev status_in : Phase → MyResourceStatus
status_in p = record {
  phase = p;
  ready_replicas = pos 0;
  observed_generation = some (pos 2);
  conditions = [];
}

-- A resource that the operator has claimed, with `n` replicas.
abbrev pub fresh : ℤ → MyResource
fresh n = record { metadata = metadata_of none (finalizer ∷ []); spec = spec_of n; status = none }

abbrev pub in_phase : Phase → MyResource
in_phase p = record {
  metadata = metadata_of none (finalizer ∷ []);
  spec = spec_of (pos 3);
  status = some (status_in p);
}

abbrev pub unclaimed : MyResource
unclaimed = record { metadata = metadata_of none []; spec = spec_of (pos 3); status = none }

abbrev pub going : MyResource
going = record {
  metadata = metadata_of (some "2025-01-01T00:00:00Z") (finalizer ∷ []);
  spec = spec_of (pos 3);
  status = some (status_in running);
}
