-- ===== src/Register/Config.antt =====
-- BuildPodConfig of pkg/controllers/register/register.go: what a pod's environment says of its ports.
use datafuse_operator.Prelude.{String, ◌<>◌, List, [], ◌∷◌, ◌==◌, if◌then◌else◌}
use datafuse_operator.Go.Int.{ℤ}
use datafuse_operator.Go.Text.{split_n}
use datafuse_operator.Go.Result.{Result, ok, err, panic, errorf, ◌>>=◌}
use datafuse_operator.Kube.Objects.{EnvVar, Pod}
use datafuse_operator.Kube.Meta.{Quantities}
use datafuse_operator.Constants

pub record ClusterNodeRequest : Type 0 where
  pub name : String
  pub address : String
  pub priority : ℤ

pub record FuseQueryConfigs : Type 0 where
  pub mysql_port : String
  pub http_port : String
  pub rpc_port : String
  pub click_house_port : String
  pub metrics_port : String
  pub priority : String

-- CLUSTER_OPS
abbrev pub cluster_add : String
cluster_add = "/v1/cluster/add"

abbrev pub cluster_remove : String
cluster_remove = "/v1/cluster/remove"

abbrev pub cluster_list : String
cluster_list = "/v1/cluster/list"

abbrev pub cluster_config : String
cluster_config = "/v1/configs"

-- `var config FuseQueryConfigs`
abbrev pub no_config : FuseQueryConfigs
no_config = record {
  mysql_port = "";
  http_port = "";
  rpc_port = "";
  click_house_port = "";
  metrics_port = "";
  priority = "";
}

-- `if len(str) != 2 { return ..., err }`, and else str[1]
second : List String → String → Result String
second (a ∷ b ∷ []) message = ok b
second _ message = err (errorf message)

module _ (Q : Quantities) where
  open Q use {Quantity}

  -- The message for an address that has no port.
  abbrev pub cannot_parse : Pod Quantity → String → String → String
  cannot_parse pod port value =
      "cannot parse pod " <> pod.meta.namespace <> "/" <> pod.meta.name <> " " <> port
      <> " port with value " <> value

  -- The switch on env.Name.
  unfoldable pub read_env : Pod Quantity → EnvVar → FuseQueryConfigs → Result FuseQueryConfigs
  unfolding second
  read_env pod env config =
      if env.name == Constants.fuse_query_http_api_address
      then (do
        port ← second (split_n b':' env.value) (cannot_parse pod "http" env.value)
        ok (record config { http_port = port }))
      else if env.name == Constants.fuse_query_mysql_handler_port
      then ok (record config { mysql_port = env.value })
      else if env.name == Constants.fuse_query_clickhouse_handler_port
      then ok (record config { click_house_port = env.value })
      else if env.name == Constants.fuse_query_rpc_api_address
      then (do
        port ← second (split_n b':' env.value) (cannot_parse pod "rpc" env.value)
        ok (record config { rpc_port = port }))
      else if env.name == Constants.fuse_query_metric_api_address
      then (do
        port ← second (split_n b':' env.value) (cannot_parse pod "metrics" env.value)
        ok (record config { metrics_port = port }))
      else if env.name == Constants.fuse_query_priority
      then ok (record config { priority = env.value })
      else ok config

  -- The loop over the environment.
  unfoldable pub read_envs : Pod Quantity → List EnvVar → FuseQueryConfigs → Result FuseQueryConfigs
  read_envs pod [] config = ok config
  read_envs pod (env ∷ envs) config = read_env pod env config >>= read_envs pod envs

  -- BuildPodConfig
  unfoldable pub build_pod_config : Pod Quantity → Result FuseQueryConfigs
  build_pod_config pod = elim pod.spec.containers [
    | [] ↦ panic
    | c ∷ _ ↦ read_envs pod c.env no_config
  ]
