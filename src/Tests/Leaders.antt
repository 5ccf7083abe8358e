-- ===== src/Tests/Leaders.antt =====
-- The two ready leaders of Tests/Pair, which are told of the worker.
use datafuse_operator.Prelude.{true, not, ◌&&◌, ◌||◌, List, [], ◌∷◌, ◌++◌, ◌==◌, ◌≡◌, refl, All}
use datafuse_operator.Go.Result.{ok}
use datafuse_operator.Register.Nodes.{is_group_worker, pod_key}
use datafuse_operator.Register.Listing.{Object, pod}
use datafuse_operator.Register.Process.{NetState, process_ready_worker, process_unready_worker}
use datafuse_operator.Register.Leaders.{
  Changed, leaders, process_ready_worker-all, process_unready_worker-all,
}
use datafuse_operator.Kube.Queue.{WorkQueue, IsGiving}
use datafuse_operator.Register.Work.{process_next_item}
use datafuse_operator.Register.Watch.{on_pod_deleted, process_next_item-deleted}
use datafuse_operator.Go.Map.{get}
use datafuse_operator.Tests.Loops.{take_first}
use datafuse_operator.Tests.Fixtures.{texts}
use datafuse_operator.Tests.Cluster.{worker, worker-IsServable, worker_label, node_of}
use datafuse_operator.Tests.Pair.{
  deps, lists, apis, store, rc, rc-IsServing, added_apart, removed_apart,
}

-- The nodes that the servers have at first.
abbrev pub first : NetState deps
first = (node_of "default/gone" ∷ [], node_of "default/worker" ∷ [])

process_ready_worker-all_example :
    ((process_ready_worker deps rc worker first).0 ≡ ok tt)
    × All
        (Changed deps lists
          (λ k old. (pod_key texts worker == k) || old)
          first
          (process_ready_worker deps rc worker first).1)
        (leaders deps lists rc store rc-IsServing)
process_ready_worker-all_example =
    process_ready_worker-all deps lists rc store rc-IsServing worker "other-group" first
      worker_label worker-IsServable apis (added_apart worker worker-IsServable)

process_unready_worker-all_example :
    ((process_unready_worker deps rc worker first).0 ≡ ok tt)
    × All
        (Changed deps lists
          (λ k old. not (pod_key texts worker == k) && old)
          first
          (process_unready_worker deps rc worker first).1)
        (leaders deps lists rc store rc-IsServing)
process_unready_worker-all_example =
    process_unready_worker-all deps lists rc store rc-IsServing worker "other-group" first
      worker_label worker-IsServable apis (removed_apart worker worker-IsServable)

-- A queue that gives out what is put in.
abbrev pub line : WorkQueue (Object deps)
line = record {
  State = List (Object deps);
  next = take_first;
  done = λ _ q. q;
  forget = λ _ q. q;
  add = λ o q. q ++ o ∷ [];
  add_rate_limited = λ o q. q ++ o ∷ [];
  num_requeues = λ _ _. 0;
}

line-IsGiving : IsGiving line
line-IsGiving = record { IsEmpty = λ q. q ≡ []; gives = λ o q e. rw e refl }

pub follows : is_group_worker texts worker ≡ true
unfolding is_group_worker get
follows = refl

process_next_item-deleted_example :
    ((process_next_item deps line rc (on_pod_deleted deps line (pod worker) []) first).0 ≡ ok true)
    × All
        (Changed deps lists
          (λ k old. (pod_key texts worker == k) || old)
          first
          (process_next_item deps line rc (on_pod_deleted deps line (pod worker) []) first).2)
        (leaders deps lists rc store rc-IsServing)
unfolding line-IsGiving
process_next_item-deleted_example =
    process_next_item-deleted deps line lists rc store rc-IsServing line-IsGiving worker
      "other-group" [] first refl refl follows worker_label worker-IsServable apis
      (added_apart worker worker-IsServable)
