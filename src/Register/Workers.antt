-- ===== src/Register/Workers.antt =====
-- What ProcessReadyWorker and ProcessUnreadyWorker do when there is one ready leader
-- (pkg/controllers/register/register_controller.go).
use datafuse_operator.Prelude.{String, ◌≡◌, refl, not, ◌&&◌, ◌||◌, some, List, [], ◌∷◌, ◌==◌}
use datafuse_operator.Go.Map.{get}
use datafuse_operator.Go.Result.{ok}
use datafuse_operator.Go.Exec.{for_each}
use datafuse_operator.Constants
use datafuse_operator.Register.Config.{ClusterNodeRequest, FuseQueryConfigs, build_pod_config}
use datafuse_operator.Register.Nodes.{is_group_leader, pod_key, pod_address, add_node, remove_node}
use datafuse_operator.Register.Listing.{
  RegisterDeps, APod, PodStore, RegisterController, ready_pods, list_ready_leaders,
}
use datafuse_operator.Register.Process.{
  NetState, for_leaders, process_ready_worker, process_unready_worker,
}
use datafuse_operator.Register.Cluster.{
  IsClusterApi, IsServable, Lists, listed, Lists-add_node, Lists-remove_node,
}
use datafuse_operator.Register.Serving.{IsServing, all_ns_store_lem}

module _ (D : RegisterDeps) (rc : RegisterController D) (store : PodStore D)
    (serving : IsServing D rc store) (leader : APod D)
    (sole : ready_pods D (is_group_leader D.quantities) store.list ≡ leader ∷ [])
    (config : FuseQueryConfigs) (configured : build_pod_config D.quantities leader ≡ ok config)
    (nodes : NetState D → List ClusterNodeRequest)
    (api : IsClusterApi D.web (pod_address D.quantities leader config.http_port) nodes) where
  list_ready_leaders_lem :
      (group_key : String) → list_ready_leaders D rc group_key ≡ ok (leader ∷ [])
  unfolding list_ready_leaders
  list_ready_leaders_lem group_key =
      rw (all_ns_store_lem D rc store serving, list_ready_leaders) (rw (serving.all_ns, sole) refl)

  process_ready_worker-eq :
      (p : APod D) (group_key : String) (s : NetState D)
      → get Constants.compute_group_label p.meta.labels ≡ some group_key
      → process_ready_worker D rc p s
        ≡ for_each (λ l. add_node D.quantities D.meta D.web l p) (leader ∷ []) s
  unfolding process_ready_worker for_leaders
  process_ready_worker-eq p group_key s label =
      rw (label, for_leaders) (rw list_ready_leaders_lem (rw serving.all_ns refl))

  process_unready_worker-eq :
      (p : APod D) (group_key : String) (s : NetState D)
      → get Constants.compute_group_label p.meta.labels ≡ some group_key
      → process_unready_worker D rc p s
        ≡ for_each (λ l. remove_node D.quantities D.meta D.web l p) (leader ∷ []) s
  unfolding process_unready_worker for_leaders
  process_unready_worker-eq p group_key s label =
      rw (label, for_leaders) (rw list_ready_leaders_lem (rw serving.all_ns refl))

  -- When the controller watches all namespaces, its store has a pod for each key that is the pod's
  -- own, every pod that it has or lists says how it is reached, the store has one ready leader,
  -- which is configured, and that leader's server keeps the cluster API: ProcessReadyWorker on a
  -- worker with a group label that says how it is reached ends without an error, and adds the
  -- worker's key to the leader's list and changes no other name on it, whatever groups the labels
  -- of the two name.
  process_ready_worker_lem :
      (p : APod D) (group_key : String) (s : NetState D)
      → get Constants.compute_group_label p.meta.labels ≡ some group_key
      → IsServable D p
      → Lists D nodes
          (process_ready_worker D rc p s)
          (λ k. (pod_key D.quantities p == k) || listed (nodes s) k)
  unfolding for_each
  process_ready_worker_lem p group_key s label servable =
      let (ran, lists) = Lists-add_node D leader config configured nodes api p s servable in
      rw (process_ready_worker-eq p group_key s label) (rw ran (refl, lists))

  -- When the controller watches all namespaces, its store has a pod for each key that is the pod's
  -- own, every pod that it has or lists says how it is reached, the store has one ready leader,
  -- which is configured, and that leader's server keeps the cluster API: ProcessUnreadyWorker on a
  -- worker with a group label that says how it is reached ends without an error, and takes the
  -- worker's key off the leader's list and changes no other name on it, whatever groups the labels
  -- of the two name.
  process_unready_worker_lem :
      (p : APod D) (group_key : String) (s : NetState D)
      → get Constants.compute_group_label p.meta.labels ≡ some group_key
      → IsServable D p
      → Lists D nodes
          (process_unready_worker D rc p s)
          (λ k. not (pod_key D.quantities p == k) && listed (nodes s) k)
  unfolding for_each
  process_unready_worker_lem p group_key s label servable =
      let (ran, lists) = Lists-remove_node D leader config configured nodes api p s servable in
      rw (process_unready_worker-eq p group_key s label) (rw ran (refl, lists))
