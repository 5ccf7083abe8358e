-- ===== src/Register/RoundTrip.antt =====
-- What BuildPodConfig reads from a pod that MakeFuseQueryPod made.
use datafuse_operator.Prelude.{
  String, ◌<>◌, Bool, Option, none, some, List, [], ◌∷◌, ◌≡◌, refl, arith, ap, ◌∙◌,
}
use Prim.Native.String.append
use text.Mathlib.TextLemmas.{append_assoc}
use datafuse_operator.Go.Int.{ℤ, pos, negsuc, IsInt32, IsInt64}
use datafuse_operator.Go.Text.{show_int, split_n, split_n-append, atoi-show_int}
use datafuse_operator.Go.Result.{ok, deref, bind-eq-ok}
use datafuse_operator.Kube.Objects.{Pod, PodSpec, PodStatus, EnvVar}
use datafuse_operator.Kube.Meta.{Quantities, MetaFuncs}
use datafuse_operator.Api.Types.{ComputeSetSpec, ComputeInstanceSpec}
use datafuse_operator.Utils.Pods.{
  make_ports, make_resource_requirements, env_list, make_envs, convert_instance_spec_to_pod_spec,
  make_fuse_query_pod,
}
use datafuse_operator.Register.Config.{
  no_config, no_config, FuseQueryConfigs, read_env, read_envs, build_pod_config,
}
use datafuse_operator.Register.Nodes.{parse_priority, node_request}

any_address-append : (port : String) → "0.0.0.0:" <> port ≡ "0.0.0.0" <> String.◌∷◌ ":" port
any_address-append port =
    append_assoc "0.0.0.0" ":" port
    ∙ ap (λ s. "0.0.0.0" <> s) (append.cons ":" "" port ∙ ap (String.◌∷◌ ":") (append.nil port))

split_any_address : (port : String) → split_n b':' ("0.0.0.0:" <> port) ≡ "0.0.0.0" ∷ port ∷ []
split_any_address port =
    rw any_address-append (split_n-append b':' "0.0.0.0" ":" port (omega arith) refl)

-- The values behind the pointers of an instance that makeEnvs reads.
pub record Values : Type 0 where
  pub cores : ℤ
  pub mysql : ℤ
  pub clickhouse : ℤ
  pub http : ℤ
  pub metrics : ℤ
  pub rpc : ℤ
  pub priority : ℤ

pub record IsFilled (spec : ComputeInstanceSpec) (v : Values) : Type 0 where
  pub cores : spec.cores ≡ some v.cores
  pub mysql : spec.mysql_port ≡ some v.mysql
  pub clickhouse : spec.clickhouse_port ≡ some v.clickhouse
  pub http : spec.http_port ≡ some v.http
  pub metrics : spec.metrics_port ≡ some v.metrics
  pub rpc : spec.rpc_port ≡ some v.rpc
  pub priority : spec.priority ≡ some v.priority

abbrev pub config_of : Values → FuseQueryConfigs
config_of v = record {
  mysql_port = show_int v.mysql;
  http_port = show_int v.http;
  rpc_port = show_int v.rpc;
  click_house_port = show_int v.clickhouse;
  metrics_port = show_int v.metrics;
  priority = show_int v.priority;
}

make_envs_of_IsFilled :
    (spec : ComputeInstanceSpec) (v : Values)
    → IsFilled spec v
    → make_envs spec ≡ ok (env_list v.cores v.mysql v.clickhouse v.http v.metrics v.rpc v.priority)
unfolding make_envs
make_envs_of_IsFilled spec v f =
    rw (f.cores, f.mysql, f.clickhouse, f.http, f.metrics, f.rpc, f.priority)

pub IsInt64-of-IsInt32 : (n : ℤ) → IsInt32 n → IsInt64 n
IsInt64-of-IsInt32 (pos n) h = omega arith
IsInt64-of-IsInt32 (negsuc n) h = omega arith

module _ (Q : Quantities) where
  open Q use {Quantity}

  read_made_envs :
      (pod : Pod Quantity) (cores mysql clickhouse http metrics rpc priority : ℤ)
      → read_envs Q pod (env_list cores mysql clickhouse http metrics rpc priority) no_config
        ≡ ok (record {
          mysql_port = show_int mysql;
          http_port = show_int http;
          rpc_port = show_int rpc;
          click_house_port = show_int clickhouse;
          metrics_port = show_int metrics;
          priority = show_int priority;
        })
  unfolding read_envs read_env env_list
  read_made_envs pod cores mysql clickhouse http metrics rpc priority = rw (
    split_any_address (show_int http),
    split_any_address (show_int metrics),
    split_any_address (show_int rpc),
  )

  -- The environment of the first container.
  abbrev env_of : PodSpec Quantity → Option (List EnvVar)
  env_of spec = elim spec.containers [ [] ↦ none | c ∷ _ ↦ some c.env ]

  env_of-convert :
      (spec : ComputeInstanceSpec) (env : List EnvVar) (made : PodSpec Quantity)
      → make_envs spec ≡ ok env
      → convert_instance_spec_to_pod_spec Q spec ≡ ok made
      → env_of made ≡ some env
  unfolding convert_instance_spec_to_pod_spec
  env_of-convert spec env made e h =
      let (image, _, h₁) = bind-eq-ok (deref spec.image) _ h in
      let (policy, _, h₂) = bind-eq-ok (deref spec.image_pull_policy) _ h₁ in
      let (env', e', h₃) = bind-eq-ok (make_envs spec) _ h₂ in
      let (ports, _, h₄) = bind-eq-ok (make_ports spec) _ h₃ in
      let (resources, _, h₅) = bind-eq-ok (make_resource_requirements Q spec) _ h₄ in
      ground (arith, h₅, e, e')

  build_pod_config_of_env :
      (pod : Pod Quantity) (env : List EnvVar)
      → env_of pod.spec ≡ some env
      → build_pod_config Q pod ≡ read_envs Q pod env no_config
  unfolding build_pod_config
  build_pod_config_of_env pod env e = ground (arith, e)

  -- A pod that MakeFuseQueryPod made of an instance with cores, ports and a priority has, at any
  -- status, these ports and the priority in the configuration that BuildPodConfig reads from it, in
  -- decimals.
  pub build_pod_config-make_fuse_query_pod :
      (set : ComputeSetSpec) (v : Values) (name namespace group_key : String) (is_leader : Bool)
      (pod : Pod Quantity) (status : PodStatus)
      → IsFilled set.instance_spec v
      → make_fuse_query_pod Q set name namespace group_key is_leader ≡ ok pod
      → build_pod_config Q (record pod { status = status }) ≡ ok (config_of v)
  unfolding make_fuse_query_pod build_pod_config
  build_pod_config-make_fuse_query_pod set v name namespace group_key is_leader pod status f h =
      let (made, converted, h₁) =
        bind-eq-ok (convert_instance_spec_to_pod_spec Q set.instance_spec) _ h in
      let e = env_of-convert _ _ made (make_envs_of_IsFilled set.instance_spec v f) converted in
      let same : pod.spec ≡ made = ground (arith, h₁) in
      let e' : env_of pod.spec ≡ some _ = ap env_of same ∙ e in
      build_pod_config_of_env (record pod { status = status }) _ e'
      ∙ read_made_envs _ v.cores v.mysql v.clickhouse v.http v.metrics v.rpc v.priority

  -- AddNode and RemoveNode name a pod that MakeFuseQueryPod made of an instance with cores, ports
  -- and a priority of int32 by its namespace and name, at its IP and RPC port, and with the number
  -- that is the priority.
  pub node_request-make_fuse_query_pod :
      (M : MetaFuncs) (set : ComputeSetSpec) (v : Values) (name namespace group_key : String)
      (is_leader : Bool) (pod : Pod Quantity) (status : PodStatus)
      → IsFilled set.instance_spec v
      → IsInt32 v.priority
      → make_fuse_query_pod Q set name namespace group_key is_leader ≡ ok pod
      → node_request Q M (record pod { status = status })
        ≡ ok (record {
          name = namespace <> "/" <> name;
          address = status.pod_ip <> ":" <> show_int v.rpc;
          priority = v.priority;
        })
  unfolding make_fuse_query_pod node_request parse_priority
  node_request-make_fuse_query_pod M set v name namespace group_key is_leader pod status f fits h =
      let (made, _, h₁) = bind-eq-ok (convert_instance_spec_to_pod_spec Q set.instance_spec) _ h in
      rw
        (
          build_pod_config-make_fuse_query_pod set v name namespace group_key is_leader pod status f
              h,
          node_request,
        )
        (rw (atoi-show_int v.priority (IsInt64-of-IsInt32 v.priority fits), parse_priority)
          (ground (arith, h₁)))
