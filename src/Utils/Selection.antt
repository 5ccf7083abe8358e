-- ===== src/Utils/Selection.antt =====
-- The service of a leader's deployment selects the deployment's pods and opens their ports.
use datafuse_operator.Prelude.{String, Bool, List, [], ◌∷◌, map, ◌≡◌, refl, arith, subst}
use datafuse_operator.Go.Int.{ℤ}
use datafuse_operator.Go.Result.{ok, deref, bind-eq-ok, ok-injective}
use datafuse_operator.Kube.Objects.{
  Container, ContainerPort, Deployment, Service, ServicePort, PodSpec,
}
use datafuse_operator.Kube.Meta.{Quantities, empty_meta}
use datafuse_operator.Api.Types.{ComputeInstanceSpec, ComputeSetSpec}
use datafuse_operator.Constants
use datafuse_operator.Utils.Pods.{
  port_list, make_ports, make_envs, make_resource_requirements, convert_instance_spec_to_pod_spec,
}
use datafuse_operator.Utils.Deployments.{service_ports, make_service, make_deployment}

-- The port of a service that leads to a container's port of the same number.
abbrev pub service_port_of : ContainerPort → ServicePort
service_port_of p = record {
  name = p.name;
  protocol = p.protocol;
  target_port = p.container_port;
  port = p.container_port;
}

service_ports-port_list :
    (http mysql clickhouse rpc metrics : ℤ)
    → service_ports (port_list http mysql clickhouse rpc metrics)
      ≡ map service_port_of (port_list http mysql clickhouse rpc metrics)
unfolding service_ports port_list
service_ports-port_list http mysql clickhouse rpc metrics = refl

service_ports-make_ports :
    (spec : ComputeInstanceSpec) (ports : List ContainerPort)
    → make_ports spec ≡ ok ports
    → service_ports ports ≡ map service_port_of ports
unfolding make_ports
service_ports-make_ports spec ports h =
    let (http, _, h₁) = bind-eq-ok (deref spec.http_port) _ h in
    let (mysql, _, h₂) = bind-eq-ok (deref spec.mysql_port) _ h₁ in
    let (clickhouse, _, h₃) = bind-eq-ok (deref spec.clickhouse_port) _ h₂ in
    let (rpc, _, h₄) = bind-eq-ok (deref spec.rpc_port) _ h₃ in
    let (metrics, _, h₅) = bind-eq-ok (deref spec.metrics_port) _ h₄ in
    let e : ports ≡ port_list http mysql clickhouse rpc metrics = cc h₅ in
    rw e (service_ports-port_list http mysql clickhouse rpc metrics)

module _ (Q : Quantities) where
  open Q use {Quantity}

  -- The container of a pod specification and what its ports were made of.
  HasPorts : PodSpec Quantity → Type 0
  HasPorts spec =
      (c : Container Quantity) × (spec.containers ≡ c ∷ [])
      × (service_ports c.ports ≡ map service_port_of c.ports)

  HasPorts-convert :
      (spec : ComputeInstanceSpec) (made : PodSpec Quantity)
      → convert_instance_spec_to_pod_spec Q spec ≡ ok made
      → HasPorts made
  unfolding convert_instance_spec_to_pod_spec HasPorts
  HasPorts-convert spec made h =
      let (image, _, h₁) = bind-eq-ok (deref spec.image) _ h in
      let (policy, _, h₂) = bind-eq-ok (deref spec.image_pull_policy) _ h₁ in
      let (env', e', h₃) = bind-eq-ok (make_envs spec) _ h₂ in
      let (ports, made_ports, h₄) = bind-eq-ok (make_ports spec) _ h₃ in
      let (resources, _, h₅) = bind-eq-ok (make_resource_requirements Q spec) _ h₄ in
      let e : _ ≡ made = ok-injective h₅ in
      subst HasPorts e (_, refl, service_ports-make_ports spec ports made_ports)

  abbrev service_of : String → Deployment Quantity → List ServicePort → Service
  service_of name d ports = record {
    meta = record empty_meta {
      name = name;
      namespace = d.meta.namespace;
      labels = d.meta.labels;
      owner_references = d.meta.owner_references;
    };
    spec = record {
      selector = d.meta.labels;
      ports = ports;
      type_name = Constants.service_type_cluster_ip;
    };
  }

  -- For a deployment that MakeDeployment made, MakeService gives a service of the given name in the
  -- deployment's namespace, which selects by the labels that the deployment's pods have and that the
  -- deployment itself selects by, and has one port for each port of the container, of the same name,
  -- protocol and number.
  pub make_service-make_deployment :
      (set : ComputeSetSpec) (name namespace operator_key group_key : String) (is_leader : Bool)
      (service_name : String) (d : Deployment Quantity)
      → make_deployment Q set name namespace operator_key group_key is_leader ≡ ok d
      → (s : Service) × (c : Container Quantity) × (make_service Q service_name d ≡ ok s)
        × (s.meta.name ≡ service_name)
        × (s.meta.namespace ≡ namespace)
        × (s.spec.selector ≡ d.spec.template.meta.labels)
        × (s.spec.selector ≡ d.spec.match_labels)
        × (d.spec.template.spec.containers ≡ c ∷ [])
        × (s.spec.ports ≡ map service_port_of c.ports)
  unfolding make_deployment make_service HasPorts
  make_service-make_deployment set name namespace operator_key group_key is_leader service_name d
        h =
      let (made, converted, h₁) =
        bind-eq-ok (convert_instance_spec_to_pod_spec Q set.instance_spec) _ h in
      let (c, one, ports) = HasPorts-convert set.instance_spec made converted in
      let same = ok-injective h₁ in
      let containers : d.spec.template.spec.containers ≡ c ∷ [] = ground (arith, same, one) in
      (
        service_of service_name d (service_ports c.ports),
        c,
        ground (arith, containers),
        refl,
        ground (arith, same),
        ground (arith, same),
        ground (arith, same),
        containers,
        ports,
      )
