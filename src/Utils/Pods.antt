-- ===== src/Utils/Pods.antt =====
-- The pod specification of a compute instance: ports, environment, probes and resources
-- (pkg/controllers/utils/operator_utils.go). A nil pointer in the instance's specification panics.
use datafuse_operator.Prelude.{String, ◌<>◌, Bool, Option, none, some, List, [], ◌∷◌, if◌then◌else◌}
use datafuse_operator.Go.Int.{ℤ, pos, ◌+ℤ◌, scale, int64}
use datafuse_operator.Go.Text.{show_int}
use datafuse_operator.Go.Result.{Result, ok, deref, ◌>>=◌}
use datafuse_operator.Kube.Objects.{
  EnvVar, ContainerPort, Probe, ResourceRequirements, PodSpec, Pod,
}
use datafuse_operator.Kube.Meta.{Quantities, empty_meta}
use datafuse_operator.Api.Types.{ComputeInstanceSpec, ComputeSetSpec}
use datafuse_operator.Constants

tcp_port : String → ℤ → ContainerPort
tcp_port name port = record {
  name = name;
  container_port = port;
  protocol = Constants.protocol_tcp;
}

-- The list that makePorts returns, of the values behind the pointers.
unfoldable pub port_list : ℤ → ℤ → ℤ → ℤ → ℤ → List ContainerPort
unfolding tcp_port
port_list http mysql clickhouse rpc metrics =
    tcp_port Constants.container_http_port http
    ∷ tcp_port Constants.container_mysql_port mysql
    ∷ tcp_port Constants.container_clickhouse_port clickhouse
    ∷ tcp_port Constants.container_rpc_port rpc
    ∷ tcp_port Constants.container_metrics_port metrics
    ∷ []

-- makePorts
unfoldable pub make_ports : ComputeInstanceSpec → Result (List ContainerPort)
make_ports spec = do
  http ← deref spec.http_port
  mysql ← deref spec.mysql_port
  clickhouse ← deref spec.clickhouse_port
  rpc ← deref spec.rpc_port
  metrics ← deref spec.metrics_port
  ok (port_list http mysql clickhouse rpc metrics)

abbrev env_var : String → String → EnvVar
env_var name value = record { name = name; value = value }

-- The list that makeEnvs returns, of the values behind the pointers.
unfoldable pub env_list : ℤ → ℤ → ℤ → ℤ → ℤ → ℤ → ℤ → List EnvVar
env_list cores mysql clickhouse http metrics rpc priority =
    env_var Constants.fuse_query_num_cpus (show_int cores)
    ∷ env_var Constants.fuse_query_mysql_handler_host "0.0.0.0"
    ∷ env_var Constants.fuse_query_mysql_handler_port (show_int mysql)
    ∷ env_var Constants.fuse_query_clickhouse_handler_host "0.0.0.0"
    ∷ env_var Constants.fuse_query_clickhouse_handler_port (show_int clickhouse)
    ∷ env_var Constants.fuse_query_http_api_address ("0.0.0.0:" <> show_int http)
    ∷ env_var Constants.fuse_query_metric_api_address ("0.0.0.0:" <> show_int metrics)
    ∷ env_var Constants.fuse_query_rpc_api_address ("0.0.0.0:" <> show_int rpc)
    ∷ env_var Constants.fuse_query_priority (show_int priority)
    ∷ []

-- makeEnvs
unfoldable pub make_envs : ComputeInstanceSpec → Result (List EnvVar)
make_envs spec = do
  cores ← deref spec.cores
  mysql ← deref spec.mysql_port
  clickhouse ← deref spec.clickhouse_port
  http ← deref spec.http_port
  metrics ← deref spec.metrics_port
  rpc ← deref spec.rpc_port
  priority ← deref spec.priority
  ok (env_list cores mysql clickhouse http metrics rpc priority)

-- makeProbe
unfoldable pub make_probe : String → String → Probe
make_probe path port_name = record {
  path = path;
  port = port_name;
  scheme = Constants.uri_scheme_http;
  period_seconds = pos 10;
  success_threshold = pos 1;
  failure_threshold = pos 3;
  timeout_seconds = pos 1;
}

-- getMilliCPU
unfoldable pub get_milli_cpu : Option ℤ → ℤ
unfolding ◌+ℤ◌ scale int64
get_milli_cpu none = pos 1300
get_milli_cpu (some cores) = int64 (int64 (scale cores 1000) +ℤ pos 300)

module _ (Q : Quantities) where
  open Q use {Quantity, new_milli_quantity, must_parse, less}

  -- `fillblank` in makeResourceRequirements
  unfoldable pub fill_blank : Option String → Quantity → Result Quantity
  fill_blank none quant = ok quant
  fill_blank (some input) quant = do
    parsed ← must_parse input
    ok (if less parsed quant then quant else parsed)

  -- makeResourceRequirements
  unfoldable pub make_resource_requirements :
      ComputeInstanceSpec → Result (ResourceRequirements Quantity)
  unfolding fill_blank
  make_resource_requirements spec = do
    let cpu = new_milli_quantity (get_milli_cpu spec.cores)
    memory_text ← deref spec.memory
    memory ← must_parse memory_text
    cpu_limit ← fill_blank spec.core_limit cpu
    memory_limit_text ← deref spec.memory_limit
    memory_limit ← must_parse memory_limit_text
    ok (record {
      requests = record { cpu = cpu; memory = memory };
      limits = record { cpu = cpu_limit; memory = memory_limit };
    })

  -- convertInstanceSpecToPodSpec
  unfoldable pub convert_instance_spec_to_pod_spec : ComputeInstanceSpec → Result (PodSpec Quantity)
  unfolding make_probe
  convert_instance_spec_to_pod_spec spec = do
    image ← deref spec.image
    image_pull_policy ← deref spec.image_pull_policy
    env ← make_envs spec
    ports ← make_ports spec
    resources ← make_resource_requirements spec
    ok (record {
      containers =
          record {
            name = Constants.instance_container_name;
            image = image;
            image_pull_policy = image_pull_policy;
            env = env;
            ports = ports;
            liveness_probe = make_probe "/v1/hello" Constants.container_http_port;
            readiness_probe = make_probe "/v1/configs" Constants.container_http_port;
            resources = resources;
            args = [];
          }
          ∷ [];
    })

  -- `leaderString` in MakeFuseQueryPod and MakeDeployment
  abbrev pub leader_string : Bool → String
  leader_string is_leader =
      if is_leader
      then Constants.compute_group_role_leader
      else Constants.compute_group_role_follower

  -- MakeFuseQueryPod
  unfoldable pub make_fuse_query_pod :
      ComputeSetSpec → String → String → String → Bool → Result (Pod Quantity)
  make_fuse_query_pod set name namespace group_key is_leader = do
    spec ← convert_instance_spec_to_pod_spec set.instance_spec
    ok (record {
      meta = record empty_meta {
        name = name;
        namespace = namespace;
        labels = some (
            (Constants.compute_group_label, group_key)
            ∷ (Constants.compute_group_role_label, leader_string is_leader)
            ∷ []);
      };
      spec = spec;
      status = record { pod_ip = ""; conditions = none };
    })
