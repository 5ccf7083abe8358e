-- ===== src/Tests/Cluster.antt =====
-- A register controller whose store holds a ready leader, at the address of the server of the tests,
-- a ready worker of another group, and a leader that is not ready.
use datafuse_operator.Prelude.{
  String, true, false, none, some, is_some, List, [], ◌∷◌, ◌==◌, if◌then◌else◌, ◌≡◌, refl, subst,
  arith, Bool-cases, inl, inr, eq_iff,
}
use datafuse_operator.Go.Int.{pos}
use datafuse_operator.Go.Text.{show_int, show_nat, digits, digit}
use datafuse_operator.Go.Map.{lookup, get}
use datafuse_operator.Go.Result.{ok}
use datafuse_operator.Kube.Objects.{PodStatus}
use datafuse_operator.Constants
use datafuse_operator.Register.Config.{ClusterNodeRequest, build_pod_config}
use datafuse_operator.Register.Nodes.{pod_key, pod_address, is_group_leader, is_group_worker}
use datafuse_operator.Register.Listing.{
  RegisterDeps, APod, pod, other, PodStore, RegisterController, ready_pods,
}
use datafuse_operator.Register.Process.{stored_pod}
use datafuse_operator.Register.Cluster.{IsClusterApi, IsServable}
use datafuse_operator.Register.Serving.{IsRange, IsServing}
use datafuse_operator.Register.Server.{test_web, server_address, test_web-IsClusterApi}
use datafuse_operator.Register.RoundTrip.{
  Values, IsFilled, config_of, build_pod_config-make_fuse_query_pod,
  node_request-make_fuse_query_pod,
}
use datafuse_operator.Tests.Fixtures.{
  texts, apimachinery, query_pod, instance_spec, two_replicas, made_leader, made_worker,
}

abbrev pub deps : RegisterDeps
deps = record {
  quantities = texts;
  meta = apimachinery;
  web = test_web "config";
  is_pod_ready = λ p. is_some p.status.conditions;
  range = λ m. m;
}

pub range-IsRange : IsRange deps
range-IsRange = record { visits = λ P m h. h; same_keys = λ m k. refl; once = λ m h. h }

abbrev pub status_at : String → PodStatus
status_at ip = record {
  pod_ip = ip;
  conditions = some (record { kind = "Ready"; status = "True" } ∷ []);
}

abbrev pub leader : APod deps
leader = query_pod "leader" "group" Constants.compute_group_role_leader (status_at "10.0.0.1")

abbrev pub worker : APod deps
worker =
    query_pod "worker" "other-group" Constants.compute_group_role_follower (status_at "10.0.0.2")

abbrev pub values : Values
values = record {
  cores = pos 2;
  mysql = pos 3306;
  clickhouse = pos 9000;
  http = pos 8080;
  metrics = pos 7070;
  rpc = pos 9090;
  priority = pos 1;
}

pub spec-IsFilled : IsFilled instance_spec values
spec-IsFilled = record {
  cores = refl;
  mysql = refl;
  clickhouse = refl;
  http = refl;
  metrics = refl;
  rpc = refl;
  priority = refl;
}

pub leader_configured : build_pod_config texts leader ≡ ok (config_of values)
leader_configured =
    build_pod_config-make_fuse_query_pod texts two_replicas values "leader" "default" "group" true _
      (status_at "10.0.0.1") spec-IsFilled made_leader

pub leader-IsServable : IsServable deps leader
leader-IsServable = (
  _,
  node_request-make_fuse_query_pod texts apimachinery two_replicas values "leader" "default" "group"
      true _ (status_at "10.0.0.1") spec-IsFilled (omega arith) made_leader,
)

pub worker-IsServable : IsServable deps worker
worker-IsServable = (
  _,
  node_request-make_fuse_query_pod texts apimachinery two_replicas values "worker" "default"
      "other-group" false _ (status_at "10.0.0.2") spec-IsFilled (omega arith) made_worker,
)

-- The nodes of the server.
abbrev pub nodes : List ClusterNodeRequest → List ClusterNodeRequest
nodes items = items

leader_address : pod_address texts leader (show_int (pos 8080)) ≡ server_address
unfolding show_int show_nat digits digit
leader_address = refl

pub leader_api : IsClusterApi deps.web (pod_address texts leader (config_of values).http_port) nodes
leader_api = rw leader_address (test_web-IsClusterApi "config")

abbrev pub store : PodStore deps
store = record {
  list = pod leader ∷ pod worker ∷ other ∷ [];
  get_by_key = λ k.
      if "default/leader" == k
      then ok (some (pod leader))
      else if "default/worker" == k
      then ok (some (pod worker))
      else ok none;
}

abbrev pub rc : RegisterController deps
rc = record { all_ns = true; pod_informers = (Constants.namespace_all, store) ∷ [] }

pub sole_leader : ready_pods deps (is_group_leader texts) store.list ≡ leader ∷ []
unfolding ready_pods is_group_leader get
sole_leader = refl

pub sole_worker : ready_pods deps (is_group_worker texts) store.list ≡ worker ∷ []
unfolding ready_pods is_group_worker get
sole_worker = refl

stored_sound :
    (k : String) (p : APod deps)
    → stored_pod deps store k ≡ some p
    → (pod_key texts p ≡ k) × IsServable deps p
unfolding stored_pod
stored_sound k p h = elim (Bool-cases ("default/leader" == k)) [
  | inl e ↦
      let same : leader ≡ p = ground (arith, e, h) in
      let named : "default/leader" ≡ k = ground (arith, e, eq_iff "default/leader" k) in
      subst (λ q. (pod_key texts q ≡ k) × IsServable deps q) same (named, leader-IsServable)
  | inr e ↦ elim (Bool-cases ("default/worker" == k)) [
    | inl e' ↦
        let same : worker ≡ p = ground (arith, e, e', h) in
        let named : "default/worker" ≡ k = ground (arith, e', eq_iff "default/worker" k) in
        subst (λ q. (pod_key texts q ≡ k) × IsServable deps q) same (named, worker-IsServable)
    | inr e' ↦ ground (arith, e, e', h)
  ]
]

pub rc-IsServing : IsServing deps rc store
unfolding lookup
rc-IsServing = record {
  all_ns = refl;
  informed = refl;
  sound = stored_sound;
  servable = rw sole_worker (worker-IsServable, tt);
}

pub leader_label : get Constants.compute_group_label leader.meta.labels ≡ some "group"
unfolding get
leader_label = refl

pub worker_label : get Constants.compute_group_label worker.meta.labels ≡ some "other-group"
unfolding get
worker_label = refl

-- A node of the server, by its name.
abbrev pub node_of : String → ClusterNodeRequest
node_of name = record { name = name; address = "10.0.0.9:9090"; priority = pos 1 }
