-- ===== src/Resources/Generate.antt =====
-- The generators of src/resources/common.rs.
use k8s_operator_template.Prelude.{String, true, false, none, some, [], ◌∷◌, to_string, unwrap_or}
use k8s_operator_template.Prelude.BTreeMap.{BTreeMap, insert, extend}
use k8s_operator_template.Crd.{MyResource}
use k8s_operator_template.Resources.Types.{
  OwnerReference, GeneratedMeta, ConfigMap, Container, Deployment, string, Service,
}

abbrev pub name_label : String
name_label = "app.kubernetes.io/name"

abbrev pub managed_by_label : String
managed_by_label = "app.kubernetes.io/managed-by"

abbrev pub component_label : String
component_label = "app.kubernetes.io/component"

unfoldable pub standard_labels : MyResource → BTreeMap
standard_labels resource =
    let labels = insert name_label resource.metadata.name_any [] in
    let labels' = insert managed_by_label "my-operator" labels in
    let labels'' = insert component_label "myresource" labels' in
    extend labels'' resource.spec.labels

unfoldable pub owner_reference : MyResource → OwnerReference
owner_reference resource = record {
  api_version = "myoperator.example.com/v1alpha1";
  kind = "MyResource";
  name = resource.metadata.name_any;
  uid = unwrap_or resource.metadata.uid "";
  controller = some true;
  block_owner_deletion = some true;
}

-- The metadata that the three generators share.
unfoldable pub generated_meta : MyResource → GeneratedMeta
generated_meta resource = record {
  name = some resource.metadata.name_any;
  namespace = resource.metadata.namespace;
  labels = some (standard_labels resource);
  owner_references = some (owner_reference resource ∷ []);
}

unfoldable pub generate_configmap : MyResource → ConfigMap
unfolding generated_meta
generate_configmap resource = record {
  metadata = generated_meta resource;
  entries = some (
      insert "replicas" (to_string resource.spec.replicas)
        (insert "message" resource.spec.message []));
}

-- The selector `{"app.kubernetes.io/name": name}` of the deployment and of the service.
unfoldable pub name_selector : MyResource → BTreeMap
name_selector resource = insert name_label resource.metadata.name_any []

unfoldable generate_container : MyResource → Container
generate_container resource = record {
  name = "main";
  image = some "nginx:alpine";
  ports = record { container_port = 80; name = some "http" } ∷ [];
  env = record { name = "MESSAGE"; value = some resource.spec.message } ∷ [];
  resources = some (record {
    limits = some (insert "memory" "128Mi" (insert "cpu" "100m" []));
    requests = some (insert "memory" "64Mi" (insert "cpu" "50m" []));
  });
  security_context = some (record {
    allow_privilege_escalation = some false;
    read_only_root_filesystem = some true;
    run_as_non_root = some true;
    drop_capabilities = "ALL" ∷ [];
  });
}

unfoldable pub generate_deployment : MyResource → Deployment
unfolding generated_meta name_selector generate_container
generate_deployment resource = record {
  metadata = generated_meta resource;
  spec = some (record {
    replicas = some resource.spec.replicas;
    match_labels = some (name_selector resource);
    template = record {
      labels = some (standard_labels resource);
      containers = generate_container resource ∷ [];
      security_context =
          some
            (record { run_as_non_root = some true; run_as_user = some 1000; fs_group = some 1000 });
    };
  });
  status = none;
}

unfoldable pub generate_service : MyResource → Service
unfolding generated_meta name_selector
generate_service resource = record {
  metadata = generated_meta resource;
  spec = some (record {
    type = some "ClusterIP";
    selector = some (name_selector resource);
    ports = record { port = 80; target_port = some (string "http"); name = some "http" } ∷ [];
  });
}
