-- ===== src/Register/Process.antt =====
-- How RegisterController brings a leader's cluster list up to date
-- (pkg/controllers/register/register_controller.go). The informers' store stands still during a call.
use datafuse_operator.Prelude.{String, ◌<>◌, Option, none, some, List, [], ◌∷◌, ◌++◌, if◌then◌else◌}
use datafuse_operator.Go.Map.{Entries, lookup, insert, erase, get}
use datafuse_operator.Go.Result.{GoError, ok, errorf}
use datafuse_operator.Go.Exec.{Exec, pure, raise, lift, attempt, for_each, ◌>>=◌, ◌>>◌}
use datafuse_operator.Kube.Objects.{Pod}
use datafuse_operator.Constants
use datafuse_operator.Register.Config.{ClusterNodeRequest}
use datafuse_operator.Register.Nodes.{
  pod_key, add_node, remove_node, remove_config, get_cluster_list,
}
use datafuse_operator.Register.Listing.{
  RegisterDeps, APod, pod, PodStore, RegisterController, all_ns_store, list_ready_leaders,
  list_ready_workers,
}

-- "pod %s in %s does not have groupkey label"
abbrev no_group_key : {Q : Type 0} → Pod Q → GoError
no_group_key p =
    errorf ("pod " <> p.meta.name <> " in " <> p.meta.namespace <> " does not have groupkey label")

module _ (D : RegisterDeps) where
  abbrev pub NetState : Type 0
  NetState = D.web.State

  -- The pod that the store has for a registered worker, if it has one.
  unfoldable pub stored_pod : PodStore D → String → Option (APod D)
  stored_pod store key = elim (store.get_by_key key) [ ok (some (pod p)) ↦ some p | _ ↦ none ]

  -- The first loop of ListExistedWorkers: the workers that are in the store, and those to remove.
  unfoldable pub split_workers :
      PodStore D
      → List ClusterNodeRequest
      → Entries (APod D)
      → List ClusterNodeRequest
      → Entries (APod D) × List ClusterNodeRequest
  split_workers store [] existed gone = (existed, gone)
  split_workers store (worker ∷ workers) existed gone = elim (stored_pod store worker.name) [
    | none ↦ split_workers store workers existed (gone ++ worker ∷ [])
    | some p ↦ split_workers store workers (insert worker.name p existed) gone
  ]

  -- The second loop, which takes no notice of an error.
  unfoldable pub remove_all : APod D → List ClusterNodeRequest → Exec NetState (Unit {0})
  remove_all leader [] = pure tt
  remove_all leader (item ∷ items) =
      let rest = remove_all leader items in
      attempt (remove_config D.quantities D.meta D.web leader item) >> rest

  -- ListExistedWorkers
  unfoldable pub list_existed_workers :
      RegisterController D → APod D → Exec NetState (Entries (APod D))
  list_existed_workers rc leader = do
    workers ← get_cluster_list D.quantities D.meta D.web leader
    if rc.all_ns
        then (do
          store ← lift (all_ns_store D rc)
          let (existed, gone) = split_workers store workers [] []
          remove_all leader gone
          pure existed)
        else pure []

  -- The first loop of ProcessLeader: the workers that are not registered yet.
  unfoldable pub needed_to_add : Entries (APod D) → List (APod D) → List (APod D)
  needed_to_add existed [] = []
  needed_to_add existed (worker ∷ workers) =
      let rest = needed_to_add existed workers in
      elim (lookup (pod_key D.quantities worker) existed) [ some _ ↦ rest | none ↦ worker ∷ rest ]

  -- The same loop's removeHelper: the workers that are registered, by their keys.
  unfoldable pub remove_helper :
      Entries (APod D) → List (APod D) → Entries (APod D) → Entries (APod D)
  remove_helper existed [] helper = helper
  remove_helper existed (worker ∷ workers) helper =
      let key = pod_key D.quantities worker in
      remove_helper existed workers
        (elim (lookup key existed) [ some _ ↦ insert key worker helper | none ↦ helper ])

  -- The second loop: the registered workers that are no workers any more.
  unfoldable pub needed_to_remove : Entries (APod D) → Entries (APod D) → List (APod D)
  needed_to_remove helper [] = []
  needed_to_remove helper ((key, p) ∷ existed) = elim (lookup key helper) [
    | some _ ↦ needed_to_remove (erase key helper) existed
    | none ↦ p ∷ needed_to_remove helper existed
  ]

  -- ProcessLeader
  unfoldable pub process_leader : RegisterController D → APod D → Exec NetState (Unit {0})
  process_leader rc leader = elim (get Constants.compute_group_label leader.meta.labels) [
    | none ↦ raise (no_group_key leader)
    | some group_key ↦ do
      existed ← list_existed_workers rc leader
      ready ← lift (list_ready_workers D rc group_key)
      let workers = ready ++ leader ∷ []
      let helper = remove_helper existed workers []
      for_each (add_node D.quantities D.meta D.web leader) (needed_to_add existed workers)
      for_each (remove_node D.quantities D.meta D.web leader)
          (needed_to_remove helper (D.range existed))
  ]

  -- The loop over the ready leaders in ProcessUnreadyWorker and ProcessReadyWorker.
  unfoldable pub for_leaders :
      RegisterController D → APod D → (APod D → Exec NetState (Unit {0})) → Exec NetState (Unit {0})
  for_leaders rc p act = elim (get Constants.compute_group_label p.meta.labels) [
    | none ↦ raise (no_group_key p)
    | some group_key ↦
        if rc.all_ns
        then (do leaders ← lift (list_ready_leaders D rc group_key); for_each act leaders)
        else pure tt
  ]

  -- ProcessUnreadyWorker
  unfoldable pub process_unready_worker : RegisterController D → APod D → Exec NetState (Unit {0})
  unfolding for_leaders
  process_unready_worker rc p =
      for_leaders rc p (λ leader. remove_node D.quantities D.meta D.web leader p)

  -- ProcessReadyWorker
  unfoldable pub process_ready_worker : RegisterController D → APod D → Exec NetState (Unit {0})
  unfolding for_leaders
  process_ready_worker rc p =
      for_leaders rc p (λ leader. add_node D.quantities D.meta D.web leader p)
