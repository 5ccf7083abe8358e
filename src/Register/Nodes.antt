-- ===== src/Register/Nodes.antt =====
-- The operations of RegistSetter in pkg/controllers/register/register.go.
use datafuse_operator.Prelude.{
  String, ◌<>◌, Bool, true, false, none, some, List, ◌==◌, ◌≡◌, refl, arith, eq_iff, Option-cases,
  inl, inr,
}
use datafuse_operator.Go.Int.{ℤ}
use datafuse_operator.Go.Text.{atoi}
use datafuse_operator.Go.Map.{get}
use datafuse_operator.Go.Result.{Result, ok, err, panic, errorf}
use datafuse_operator.Go.Exec.{Exec, pure, lift, ◌>>=◌}
use datafuse_operator.Kube.Objects.{Pod}
use datafuse_operator.Kube.Meta.{Quantities, MetaFuncs}
use datafuse_operator.Constants
use datafuse_operator.Register.Config.{
  ClusterNodeRequest, build_pod_config, cluster_add, cluster_remove, cluster_list, cluster_config,
}
use datafuse_operator.Register.Web.{Web, post_http, get_http}

-- `priority, err := strconv.Atoi(...)` with the error that AddNode and RemoveNode return.
unfoldable pub parse_priority : MetaFuncs → String → Result ℤ
parse_priority M text = elim (atoi text) [
  | ok n ↦ ok n
  | err e ↦ err (errorf ("cannot convert priority to integer, " <> M.error_text e))
  | panic ↦ panic
]

module _ (Q : Quantities) where
  open Q use {Quantity}

  has_role : String → Pod Quantity → Bool
  has_role role pod = elim (get Constants.compute_group_role_label pod.meta.labels) [
    | none ↦ false
    | some r ↦ r == role
  ]

  -- IsGroupLeader
  unfoldable pub is_group_leader : Pod Quantity → Bool
  unfolding has_role
  is_group_leader pod = has_role Constants.compute_group_role_leader pod

  -- IsGroupWorker
  unfoldable pub is_group_worker : Pod Quantity → Bool
  unfolding has_role
  is_group_worker pod = has_role Constants.compute_group_role_follower pod

  -- A pod that follows leads no group.
  pub is_group_leader-follower :
      (p : Pod Quantity) → is_group_worker p ≡ true → is_group_leader p ≡ false
  unfolding is_group_worker is_group_leader has_role
  is_group_leader-follower p works =
      let differ : (Constants.compute_group_role_follower == Constants.compute_group_role_leader)
          ≡ false =
        refl in
      elim (Option-cases (get Constants.compute_group_role_label p.meta.labels)) [
        | inl unset ↦ rw (unset, has_role) refl
        | inr (role, e) ↦
            rw (e, has_role)
              (ground (
                arith,
                works,
                e,
                eq_iff role Constants.compute_group_role_follower,
                eq_iff role Constants.compute_group_role_leader,
                eq_iff Constants.compute_group_role_follower Constants.compute_group_role_leader,
                differ,
              ))
      ]

  -- `fmt.Sprintf("%s/%s", pod.Namespace, pod.Name)`
  abbrev pub pod_key : Pod Quantity → String
  pod_key pod = pod.meta.namespace <> "/" <> pod.meta.name

  -- `fmt.Sprintf("%s:%s", pod.Status.PodIP, port)`
  abbrev pub pod_address : Pod Quantity → String → String
  pod_address pod port = pod.status.pod_ip <> ":" <> port

  -- The request that AddNode and RemoveNode send for a follower.
  unfoldable pub node_request : MetaFuncs → Pod Quantity → Result ClusterNodeRequest
  node_request M follower = elim (build_pod_config Q follower) [
    | ok config ↦ elim (parse_priority M config.priority) [
      | ok priority ↦ ok (record {
        name = pod_key follower;
        address = pod_address follower config.rpc_port;
        priority = priority;
      })
      | err e ↦ err e
      | panic ↦ panic
    ]
    | err e ↦ err e
    | panic ↦ panic
  ]

  module _ (M : MetaFuncs) (W : Web) where
    open W use {State, marshal_node, unmarshal_nodes, to_string}

    -- AddNode
    unfoldable pub add_node : Pod Quantity → Pod Quantity → Exec State (Unit {0})
    add_node leader follower = do
      leader_config ← lift (build_pod_config Q leader)
      config_req ← lift (node_request M follower)
      let receiver = pod_address leader leader_config.http_port <> cluster_add
      json ← lift (marshal_node config_req)
      post_http W receiver json

    -- RemoveConfig
    unfoldable pub remove_config : Pod Quantity → ClusterNodeRequest → Exec State (Unit {0})
    remove_config pod config = do
      leader_config ← lift (build_pod_config Q pod)
      let receiver = pod_address pod leader_config.http_port <> cluster_remove
      json ← lift (marshal_node config)
      post_http W receiver json

    -- RemoveNode
    unfoldable pub remove_node : Pod Quantity → Pod Quantity → Exec State (Unit {0})
    remove_node leader follower = do
      config_req ← lift (node_request M follower)
      remove_config leader config_req

    -- GetClusterList
    unfoldable pub get_cluster_list : Pod Quantity → Exec State (List ClusterNodeRequest)
    get_cluster_list pod = do
      config ← lift (build_pod_config Q pod)
      let url = "http://" <> pod_address pod config.http_port <> cluster_list
      body ← get_http W url
      lift (unmarshal_nodes body)

    -- GetConfig
    unfoldable pub get_config : Pod Quantity → Exec State String
    get_config pod = do
      config ← lift (build_pod_config Q pod)
      let url = "http://" <> pod_address pod config.http_port <> cluster_config
      body ← get_http W url
      pure (to_string body)
