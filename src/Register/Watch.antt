-- ===== src/Register/Watch.antt =====
-- GetLabelSelectors and GetFieldSelectors of pkg/controllers/register/register.go, and what
-- NewRegisterController and the handlers of its informer do
-- (pkg/controllers/register/register_controller.go).
use datafuse_operator.Prelude.{
  String, Bool, true, some, List, [], ◌∷◌, ◌==◌, ◌||◌, ◌≡◌, refl, if◌then◌else◌, All,
}
use datafuse_operator.Go.Map.{get, insert}
use datafuse_operator.Go.Result.{ok}
use datafuse_operator.Constants
use datafuse_operator.Kube.Queue.{WorkQueue, IsGiving}
use datafuse_operator.Register.Config.{ClusterNodeRequest}
use datafuse_operator.Register.Nodes.{is_group_leader-follower, is_group_worker, pod_key, add_node}
use datafuse_operator.Register.Listing.{
  RegisterDeps, APod, Object, pod, PodStore, RegisterController,
}
use datafuse_operator.Register.Process.{NetState, process_ready_worker}
use datafuse_operator.Register.Work.{process_pod, process_object, process_next_item, finish}
use datafuse_operator.Register.Cluster.{IsServable}
use datafuse_operator.Register.Serving.{IsServing}
use datafuse_operator.Register.Leaders.{
  Changed, AllApart, leaders, IsLeaderApi, process_ready_worker-all,
}

-- GetLabelSelectors
abbrev pub get_label_selectors : List String
get_label_selectors = Constants.compute_group_role_label ∷ Constants.compute_group_label ∷ []

-- GetFieldSelectors
abbrev pub get_field_selectors : List String
get_field_selectors = []

module _ (D : RegisterDeps) where
  -- NewRegisterController, with the store of the informer that buildRegisterInformer makes
  unfoldable pub new_register_controller : Bool → PodStore D → RegisterController D
  new_register_controller all_ns store = record {
    all_ns = all_ns;
    pod_informers = if all_ns then insert Constants.namespace_all store [] else [];
  }

  pub process_pod-ready :
      (rc : RegisterController D) (p : APod D) (net : NetState D)
      → D.is_pod_ready p ≡ true
      → is_group_worker D.quantities p ≡ true
      → process_pod D rc p net ≡ some (process_ready_worker D rc p net)
  unfolding process_pod
  process_pod-ready rc p net ready works =
      rw (ready, is_group_leader-follower D.quantities p works, works) refl

  module _ (Q : WorkQueue (Object D)) where
    -- AddFunc, UpdateFunc and DeleteFunc
    unfoldable pub on_pod_added : Object D → Q.State → Q.State
    on_pod_added new_obj q = Q.add_rate_limited new_obj q

    unfoldable pub on_pod_updated : Object D → Object D → Q.State → Q.State
    on_pod_updated old_obj new_obj q = Q.add_rate_limited new_obj q

    unfoldable pub on_pod_deleted : Object D → Q.State → Q.State
    on_pod_deleted new_obj q = Q.add_rate_limited new_obj q

    module _ (lists : APod D → NetState D → List ClusterNodeRequest) (rc : RegisterController D)
        (store : PodStore D) (serving : IsServing D rc store) where
      -- When the controller watches all namespaces and knows its pods, each ready leader of the store is
      -- configured and its server keeps the cluster API on a list of its own, adding the pod to a leader
      -- leaves the other leaders' lists as they were, and the queue is one that gives out what is put
      -- into it while it is empty: when the queue is empty and DeleteFunc is called with a pod that was a
      -- ready worker when it was last seen, with a group label and the way to reach it, processNextItem
      -- then puts the pod on the list of every ready leader, and goes on.
      pub process_next_item-deleted :
          (giving : IsGiving Q) (p : APod D) (group_key : String) (q : Q.State) (net : NetState D)
          → giving.IsEmpty q
          → D.is_pod_ready p ≡ true
          → is_group_worker D.quantities p ≡ true
          → get Constants.compute_group_label p.meta.labels ≡ some group_key
          → IsServable D p
          → All (IsLeaderApi D lists rc store serving) (leaders D lists rc store serving)
          → AllApart D lists
              (λ l. add_node D.quantities D.meta D.web l p)
              (leaders D lists rc store serving)
          → ((process_next_item D Q rc (on_pod_deleted (pod p) q) net).0 ≡ ok true)
            × All
                (Changed D lists
                  (λ k old. (pod_key D.quantities p == k) || old)
                  net
                  (process_next_item D Q rc (on_pod_deleted (pod p) q) net).2)
                (leaders D lists rc store serving)
      unfolding process_next_item process_object finish on_pod_deleted
      process_next_item-deleted giving p group_key q net nothing ready works label servable apis
            apart =
          let (ran, changed) =
            process_ready_worker-all D lists rc store serving p group_key net label servable apis
              apart in
          rw (giving.gives (pod p) q nothing, process_next_item)
            (rw (process_pod-ready rc p net ready works, process_object) (rw ran (refl, changed)))
