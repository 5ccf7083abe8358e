-- ===== src/Tests/Register.antt =====
-- The register controller's theorems at the pods of Tests/Cluster.
use datafuse_operator.Prelude.{
  ℕ, suc, String, true, false, none, is_some, List, [], ◌∷◌, ◌++◌, contains, ◌≡◌, refl, arith,
}
use datafuse_operator.Go.Int.{pos}
use datafuse_operator.Go.Text.{show_int, show_nat, digits, digit}
use datafuse_operator.Go.Map.{get}
use datafuse_operator.Go.Result.{ok}
use datafuse_operator.Kube.Queue.{WorkQueue, IsCounting}
use datafuse_operator.Constants
use datafuse_operator.Register.Config.{ClusterNodeRequest, build_pod_config}
use datafuse_operator.Register.Nodes.{node_request, is_group_leader}
use datafuse_operator.Register.Listing.{APod, Object, pod}
use datafuse_operator.Register.Process.{stored_pod, process_leader}
use datafuse_operator.Register.Work.{process_object}
use datafuse_operator.Register.Cluster.{Lists, listed, pod_keys, IsClusterApi}
use datafuse_operator.Register.Serving.{ready_workers}
use datafuse_operator.Register.Converge.{process_leader-converges, process_leader-steady}
use datafuse_operator.Register.Watch.{on_pod_added}
use datafuse_operator.Register.Retry.{rounds, rounds-give_up}
use datafuse_operator.Register.Server.{test_web, server_address, test_web-IsClusterApi}
use datafuse_operator.Register.RoundTrip.{
  config_of, build_pod_config-make_fuse_query_pod, node_request-make_fuse_query_pod,
}
use datafuse_operator.Tests.Fixtures.{
  texts, apimachinery, query_pod, no_status, two_replicas, made_leader, made_worker,
}
use datafuse_operator.Tests.Cluster.{
  deps, range-IsRange, status_at, leader, worker, values, spec-IsFilled, leader_configured,
  leader-IsServable, nodes, leader_api, store, rc, sole_worker, rc-IsServing, leader_label, node_of,
}

process_leader-converges_example :
    Lists deps nodes
      (process_leader deps rc leader (node_of "default/gone" ∷ []))
      (contains (pod_keys deps (ready_workers deps store ++ leader ∷ [])))
process_leader-converges_example =
    process_leader-converges deps rc store rc-IsServing leader (config_of values) leader_configured
      nodes leader_api range-IsRange leader-IsServable "group" (node_of "default/gone" ∷ [])
      leader_label

-- The list of a leader that is up to date.
abbrev both : List ClusterNodeRequest
both = node_of "default/worker" ∷ node_of "default/leader" ∷ []

both_settled :
    (k : String)
    → listed both k ≡ contains (pod_keys deps (ready_workers deps store ++ leader ∷ [])) k
both_settled k = rw sole_worker refl

both_stored : (k : String) → listed both k ≡ true → is_some (stored_pod deps store k) ≡ true
unfolding stored_pod
both_stored k h = ground (arith, h)

process_leader-steady_example : process_leader deps rc leader both ≡ (ok tt, both)
process_leader-steady_example =
    process_leader-steady deps rc store rc-IsServing leader (config_of values) leader_configured
      nodes leader_api range-IsRange leader-IsServable "group" both leader_label both_settled
      both_stored

build_pod_config-make_fuse_query_pod_example : build_pod_config texts leader ≡ ok (config_of values)
build_pod_config-make_fuse_query_pod_example =
    build_pod_config-make_fuse_query_pod texts two_replicas values "leader" "default" "group" true _
      (status_at "10.0.0.1") spec-IsFilled made_leader

node_request-make_fuse_query_pod_example :
    node_request texts apimachinery worker
    ≡ ok (record { name = "default/worker"; address = "10.0.0.2:9090"; priority = pos 1 })
unfolding show_int show_nat digits digit
node_request-make_fuse_query_pod_example =
    node_request-make_fuse_query_pod texts apimachinery two_replicas values "worker" "default"
      "other-group" false _ (status_at "10.0.0.2") spec-IsFilled (omega arith) made_worker

test_web-IsClusterApi_example : IsClusterApi (test_web "config") server_address nodes
test_web-IsClusterApi_example = test_web-IsClusterApi "config"

-- A queue of one item that only counts.
abbrev counter : WorkQueue (Object deps)
counter = record {
  State = ℕ;
  next = λ n. (none, n);
  done = λ _ n. n;
  forget = λ _ _. 0;
  add = λ _ n. n;
  add_rate_limited = λ _ n. suc n;
  num_requeues = λ _ n. n;
}

counter-IsCounting : IsCounting counter
counter-IsCounting = record {
  counts_add = λ i s. refl;
  counts_forget = λ i s. refl;
  counts_next = λ i s. refl;
  counts_done = λ i j s. refl;
}

abbrev unready_leader : APod deps
unready_leader = query_pod "leader" "group" Constants.compute_group_role_leader no_status

leads : is_group_leader texts unready_leader ≡ true
unfolding is_group_leader get
leads = refl

-- What a handler leaves.
abbrev added : ℕ
added = on_pod_added deps counter (pod unready_leader) 0

rounds-give_up_example :
    ((rounds deps counter rc (pod unready_leader) 49 (added, [])).0 ≡ 50)
    × (process_object deps counter rc
          (pod unready_leader)
          (rounds deps counter rc (pod unready_leader) 49 (added, [])).0
          []
        ≡ (ok true, 0, []))
    × ((rounds deps counter rc (pod unready_leader) 50 (added, [])).0 ≡ 0)
    × ((rounds deps counter rc (pod unready_leader) 50 (added, [])).1 ≡ [])
rounds-give_up_example =
    rounds-give_up deps counter counter-IsCounting rc unready_leader refl leads 0 [] refl
