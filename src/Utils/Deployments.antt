-- ===== src/Utils/Deployments.antt =====
-- Deployments and services (pkg/controllers/utils/operator_utils.go).
use datafuse_operator.Prelude.{
  String, Bool, Option, none, some, List, [], ◌∷◌, ◌++◌, ◌==◌, ◌||◌, if◌then◌else◌,
}
use datafuse_operator.Go.Map.{GoMap}
use datafuse_operator.Go.Result.{Result, ok, panic, ◌>>=◌}
use datafuse_operator.Kube.Objects.{
  OwnerReference, ContainerPort, Container, ServicePort, Service, Deployment,
}
use datafuse_operator.Kube.Meta.{MetaFuncs, Quantities, empty_meta}
use datafuse_operator.Api.Types.{ComputeSetSpec, ComputeGroup, scheme_group_version}
use datafuse_operator.Constants
use datafuse_operator.Utils.Pods.{convert_instance_spec_to_pod_spec}

-- The case of the switch in makeServicePorts.
unfoldable pub is_service_port : String → Bool
is_service_port name =
    (name == Constants.container_metrics_port)
    || (name == Constants.container_http_port)
    || (name == Constants.container_rpc_port)
    || (name == Constants.container_mysql_port)
    || (name == Constants.container_clickhouse_port)

-- The loop of makeServicePorts.
unfoldable pub service_ports : List ContainerPort → List ServicePort
unfolding is_service_port
service_ports [] = []
service_ports (port ∷ ports) =
    let rest = service_ports ports in
    if is_service_port port.name
    then record {
      name = port.name;
      protocol = Constants.protocol_tcp;
      target_port = port.container_port;
      port = port.container_port;
    }
      ∷ rest
    else rest

module _ (Q : Quantities) where
  open Q use {Quantity}

  -- `Containers[0]`, which panics on an empty slice
  abbrev pub first_container : List (Container Quantity) → Result (Container Quantity)
  first_container [] = panic
  first_container (c ∷ _) = ok c

  -- makeServicePorts
  unfoldable pub make_service_ports : Deployment Quantity → Result (List ServicePort)
  make_service_ports d = do
    c ← first_container d.spec.template.spec.containers
    ok (service_ports c.ports)

  -- MakeService
  unfoldable pub make_service : String → Deployment Quantity → Result Service
  unfolding make_service_ports
  make_service name d = do
    ports ← make_service_ports d
    ok (record {
      meta = record empty_meta {
        name = name;
        namespace = d.meta.namespace;
        labels = d.meta.labels;
        owner_references = d.meta.owner_references;
      };
      spec = record {
        selector = d.meta.labels;
        ports = ports;
        type_name = Constants.service_type_cluster_ip;
      };
    })

  deployment_labels : String → String → Bool → GoMap String
  deployment_labels operator_key group_key is_leader = some (
      (Constants.operator_label, operator_key)
      ∷ (Constants.compute_group_label, group_key)
      ∷ (
        Constants.compute_group_role_label,
        if is_leader
            then Constants.compute_group_role_leader
            else Constants.compute_group_role_follower,
      )
      ∷ [])

  -- MakeDeployment
  unfoldable pub make_deployment :
      ComputeSetSpec → String → String → String → String → Bool → Result (Deployment Quantity)
  unfolding deployment_labels
  make_deployment set name namespace operator_key group_key is_leader = do
    spec ← convert_instance_spec_to_pod_spec Q set.instance_spec
    let labels = deployment_labels operator_key group_key is_leader
    ok (record {
      meta = record empty_meta { name = name; namespace = namespace; labels = labels };
      spec = record {
        replicas = set.replicas;
        match_labels = labels;
        template = record { meta = record empty_meta { labels = labels }; spec = spec };
      };
    })

  module _ (M : MetaFuncs) where
    abbrev references : Option (List OwnerReference) → List OwnerReference
    references none = []
    references (some l) = l

    -- AddDeployOwnership
    unfoldable pub add_deploy_ownership : Deployment Quantity → ComputeGroup → Deployment Quantity
    add_deploy_ownership d owner =
        let refs = references d.meta.owner_references in
        let meta' = record d.meta { owner_references = some refs } in
        let ref = M.new_controller_ref owner.meta scheme_group_version "DatafuseComputeGroup" in
        if M.is_controlled_by meta' owner.meta
        then record d { meta = meta' }
        else record d { meta = record meta' { owner_references = some (refs ++ (ref ∷ [])) } }
