-- ===== src/Register/Converge.antt =====
-- The cluster list of a leader behind ProcessLeader (pkg/controllers/register/register_controller.go).
use datafuse_operator.Prelude.{
  String, true, not, ◌&&◌, some, is_some, List, [], ◌∷◌, ◌++◌, contains, All, ap, ◌∙◌, ◌≡◌, arith,
}
use datafuse_operator.Go.Map.{has, Entries, lookup, get}
use datafuse_operator.Go.Result.{Result, ok}
use datafuse_operator.Go.Exec.{for_each}
use datafuse_operator.Constants
use datafuse_operator.Register.Config.{ClusterNodeRequest, FuseQueryConfigs, build_pod_config}
use datafuse_operator.Register.Nodes.{pod_key, pod_address, add_node, remove_node}
use datafuse_operator.Register.Listing.{RegisterDeps, APod, PodStore, RegisterController}
use datafuse_operator.Register.Process.{
  NetState, stored_pod, split_workers, remove_all, list_existed_workers, needed_to_add,
  remove_helper, needed_to_remove, process_leader,
}
use datafuse_operator.Register.Cluster.{
  IsClusterApi, IsServable, Lists, listed, pod_keys, get_cluster_list_lem, Lists-remove_all,
  Lists-add_nodes, Lists-remove_nodes,
}
use datafuse_operator.Register.Serving.{
  nil_of_no_keys, IsRange, ready_workers, IsServing, IsServableEntry, IsServable-needed_to_add,
  IsServable-needed_to_remove, All-snoc, IsKeyed-of-IsStored, IsServable-of-IsStored,
  all_ns_store_lem, list_ready_workers_lem,
}
use datafuse_operator.Register.Diff.{
  IsKeyed, IsStored, has-needed_to_add, has-remove_helper, has-needed_to_remove, has-split_workers,
  gone-split_workers, NodupKeys-split_workers, IsStored-split_workers,
}

module _ (D : RegisterDeps) (rc : RegisterController D) (store : PodStore D)
    (serving : IsServing D rc store) where
  module _ (leader : APod D) (config : FuseQueryConfigs)
      (configured : build_pod_config D.quantities leader ≡ ok config)
      (nodes : NetState D → List ClusterNodeRequest)
      (api : IsClusterApi D.web (pod_address D.quantities leader config.http_port) nodes) where
    abbrev existed_of : NetState D → Entries (APod D)
    existed_of s = (split_workers D store (nodes s) [] []).0

    abbrev gone_of : NetState D → List ClusterNodeRequest
    gone_of s = (split_workers D store (nodes s) [] []).1

    list_existed_workers_lem :
        (s : NetState D)
        → list_existed_workers D rc leader s
          ≡ (ok (existed_of s), (remove_all D leader (gone_of s) s).1)
    unfolding list_existed_workers
    list_existed_workers_lem s = rw (get_cluster_list_lem D leader config configured nodes api s) (
        rw (all_ns_store_lem D rc store serving) (
          rw serving.all_ns
            (rw (Lists-remove_all D leader config configured nodes api (gone_of s) s).0)))

    Lists-existed :
        (s : NetState D) (k : String)
        → listed (nodes (remove_all D leader (gone_of s) s).1) k
          ≡ (not (listed (gone_of s) k) && listed (nodes s) k)
    Lists-existed s k = (Lists-remove_all D leader config configured nodes api (gone_of s) s).1 k

    -- The pods that ProcessLeader compares with the registered ones.
    abbrev pub members : List (APod D)
    members = ready_workers D store ++ leader ∷ []

    abbrev helper_of : NetState D → Entries (APod D)
    helper_of s = remove_helper D (existed_of s) members []

    -- The list behind the removal of stale nodes and the additions.
    abbrev added_run : NetState D → Result (Unit {0}) × NetState D
    added_run s =
        for_each (add_node D.quantities D.meta D.web leader)
          (needed_to_add D (existed_of s) members) (remove_all D leader (gone_of s) s).1

    -- ProcessLeader as one run of additions and one of removals.
    process_leader-runs :
        (group_key : String) (s : NetState D)
        → get Constants.compute_group_label leader.meta.labels ≡ some group_key
        → (added_run s).0 ≡ ok tt
        → process_leader D rc leader s
          ≡ for_each
              (remove_node D.quantities D.meta D.web leader)
              (needed_to_remove D (helper_of s) (D.range (existed_of s)))
              (added_run s).1
    unfolding process_leader
    process_leader-runs group_key s label added =
        rw (label, process_leader)
          (rw (list_existed_workers_lem s)
            (rw (list_ready_workers_lem D rc store serving group_key) (rw added)))

    module _ (range : IsRange D) (leader_servable : IsServable D leader) where
      members-IsServable : All (IsServable D) members
      members-IsServable =
          All-snoc D (ready_workers D store) leader serving.servable leader_servable

      abbrev existed_facts : (s : NetState D) → All (IsStored D store) (existed_of s)
      existed_facts s = IsStored-split_workers D store (nodes s) [] [] tt

      removed-IsServable :
          (s : NetState D)
          → All (IsServable D) (needed_to_remove D (helper_of s) (D.range (existed_of s)))
      removed-IsServable s = IsServable-needed_to_remove D (helper_of s) _ (
          range.visits (IsServableEntry D) _
            (IsServable-of-IsStored D rc store serving _ (existed_facts s)))

      -- What is removed, in terms of the old list.
      removed_keys :
          (s : NetState D) (k : String)
          → contains (pod_keys D (needed_to_remove D (helper_of s) (D.range (existed_of s)))) k
            ≡ (has (existed_of s) k && not (contains (pod_keys D members) k))
      unfolding lookup
      removed_keys s k = ground (
        arith,
        has-needed_to_remove D (helper_of s) (D.range (existed_of s)) k
            (range.once _ (NodupKeys-split_workers D store (nodes s) [] [] tt))
            (range.visits (IsKeyed D) _
              (IsKeyed-of-IsStored D rc store serving _ (existed_facts s))),
        range.same_keys (existed_of s) k,
        has-remove_helper D (existed_of s) members [] k,
      )

      -- When the controller watches all namespaces, its store has a pod for each key that is the
      -- pod's own, every pod that it has or lists says how it is reached, as the leader does, a
      -- range over a map visits each entry once, and the leader's server keeps the cluster API:
      -- ProcessLeader on a leader with a group label ends without an error, and then the leader's
      -- list names just the keys of the ready workers of the store and the leader's own, whatever
      -- was on the list before.
      pub process_leader-converges :
          (group_key : String) (s : NetState D)
          → get Constants.compute_group_label leader.meta.labels ≡ some group_key
          → Lists D nodes (process_leader D rc leader s) (contains (pod_keys D members))
      unfolding lookup
      process_leader-converges group_key s label =
          let s₁ = (remove_all D leader (gone_of s) s).1 in
          let added = needed_to_add D (existed_of s) members in
          let removed = needed_to_remove D (helper_of s) (D.range (existed_of s)) in
          let (add_ok, add_lists) =
            Lists-add_nodes D leader config configured nodes api added s₁
              (IsServable-needed_to_add D (existed_of s) members members-IsServable) in
          let s₂ = (for_each (add_node D.quantities D.meta D.web leader) added s₁).1 in
          let (remove_ok, remove_lists) =
            Lists-remove_nodes D leader config configured nodes api removed s₂
              (removed-IsServable s) in
          rw (process_leader-runs group_key s label add_ok) (
            remove_ok,
            λ k. rw remove_lists (
                rw add_lists (
                  ground (
                    arith,
                    Lists-existed s k,
                    removed_keys s k,
                    has-needed_to_add D (existed_of s) members k,
                    has-split_workers D store (nodes s) [] [] k,
                    gone-split_workers D store (nodes s) [] [] k,
                  ))),
          )

      -- When the controller watches all namespaces, its store has a pod for each key that is the
      -- pod's own, every pod that it has or lists says how it is reached, as the leader does, a
      -- range over a map visits each entry once, the leader has a group label and its server keeps
      -- the cluster API, and its list names just the ready workers and the leader already, each of
      -- which the store has: ProcessLeader ends without an error and leaves the servers as they
      -- were.
      pub process_leader-steady :
          (group_key : String) (s : NetState D)
          → get Constants.compute_group_label leader.meta.labels ≡ some group_key
          → ((k : String) → listed (nodes s) k ≡ contains (pod_keys D members) k)
          → ((k : String) → listed (nodes s) k ≡ true → is_some (stored_pod D store k) ≡ true)
          → process_leader D rc leader s ≡ (ok tt, s)
      unfolding lookup
      process_leader-steady group_key s label settled stored =
          let no_gone : gone_of s ≡ [] =
            nil_of_no_keys (λ n. n.name) (gone_of s)
              (λ k. ground (arith, gone-split_workers D store (nodes s) [] [] k, stored k)) in
          let no_added : needed_to_add D (existed_of s) members ≡ [] =
            nil_of_no_keys (pod_key D.quantities) _ (λ k. ground (
              arith,
              has-needed_to_add D (existed_of s) members k,
              has-split_workers D store (nodes s) [] [] k,
              settled k,
              stored k,
            )) in
          let no_removed : needed_to_remove D (helper_of s) (D.range (existed_of s)) ≡ [] =
            nil_of_no_keys (pod_key D.quantities) _ (λ k.
              ground (
                arith,
                removed_keys s k,
                has-split_workers D store (nodes s) [] [] k,
                settled k,
              )) in
          let no_add : added_run s ≡ (ok tt, s) =
            unfold for_each remove_all in rw no_added (rw no_gone) in
          process_leader-runs group_key s label (ap (λ r. r.0) no_add)
          ∙ unfold for_each in
            rw no_removed (ap {B = Result (Unit {0}) × NetState D} (λ r. (ok tt, r.1)) no_add)
