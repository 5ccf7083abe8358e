-- ===== src/Tests/Pair.antt =====
-- Two ready leaders of different groups, each with a server of the tests at its own address.
use datafuse_operator.Prelude.{
  String, ◌<>◌, true, Option, none, some, List, [], ◌∷◌, ◌==◌, if◌then◌else◌, ◌≡◌, refl, arith,
  subst, Bool-cases, inl, inr, eq_iff, All,
}
use datafuse_operator.Go.Int.{pos}
use datafuse_operator.Go.Text.{show_int, show_nat, digits, digit}
use datafuse_operator.Go.Map.{lookup, get}
use datafuse_operator.Go.Result.{Result, ok}
use datafuse_operator.Constants
use datafuse_operator.Utils.Pods.{
  make_fuse_query_pod, convert_instance_spec_to_pod_spec, make_envs, make_ports,
  make_resource_requirements, fill_blank,
}
use datafuse_operator.Register.Config.{
  ClusterNodeRequest, build_pod_config, cluster_add, cluster_remove, cluster_list,
}
use datafuse_operator.Register.Web.{Web, post_http, get_http, http_parse}
use datafuse_operator.Register.Nodes.{
  pod_key, pod_address, is_group_leader, is_group_worker, add_node, remove_node, remove_config,
}
use datafuse_operator.Register.Listing.{
  RegisterDeps, APod, pod, PodStore, RegisterController, ready_pods,
}
use datafuse_operator.Register.Process.{NetState, stored_pod}
use datafuse_operator.Register.Cluster.{IsClusterApi, IsServable}
use datafuse_operator.Register.Serving.{IsServing}
use datafuse_operator.Register.Leaders.{AllApart, IsLeaderApi, leaders}
use datafuse_operator.Register.Server.{
  Body, empty, node, nodes, Request, serve, decoded, decode_nodes, test_web, server_address,
  server_url, listed-add_to, listed-remove_from,
}
use datafuse_operator.Register.RoundTrip.{
  config_of, build_pod_config-make_fuse_query_pod, node_request-make_fuse_query_pod,
}
use datafuse_operator.Tests.Fixtures.{texts, apimachinery, two_replicas, query_pod, no_status}
use datafuse_operator.Tests.Cluster.{
  leader, worker, values, spec-IsFilled, status_at, leader_configured, worker-IsServable,
}
use datafuse_operator.Tests.Cluster as Cluster

abbrev second_url : String → String
second_url path = "http://" <> "10.0.0.3:8080" <> path

-- The URL of the first server for one of the second.
abbrev translated : String → Option String
translated url =
    if url == second_url cluster_add
    then some (server_url cluster_add)
    else if url == second_url cluster_remove
    then some (server_url cluster_remove)
    else if url == second_url cluster_list
    then some (server_url cluster_list)
    else none

abbrev Nodes : Type 0
Nodes = List ClusterNodeRequest × List ClusterNodeRequest

unfoldable pub serve_pair : Request → Nodes → Result Body × Nodes
unfolding serve
serve_pair req (first, second) = elim (translated req.url) [
  | none ↦ let (r, first') = serve "config" req first in (r, (first', second))
  | some url ↦
      let (r, second') = serve "config" (record req { url = url }) second in (r, (first, second'))
]

abbrev pub pair_web : Web
pair_web = record (test_web "config") {
  State = Nodes;
  do_request = serve_pair;
  http_get = λ url. serve_pair (record { method = "GET"; url = url; body = empty });
}

abbrev pub deps : RegisterDeps
deps = record Cluster.deps { web = pair_web }

first_api : IsClusterApi pair_web server_address (λ s. s.0)
unfolding serve_pair serve decode_nodes decoded post_http get_http http_parse
first_api = record {
  encodes = λ n. (node n, refl);
  adds = λ n b s e. let same : b ≡ node n = cc in rw same (refl, listed-add_to n s.0);
  removes = λ n b s e. let same : b ≡ node n = cc in rw same (refl, listed-remove_from n s.0);
  lists = λ s. (nodes s.0, refl, refl);
}

second_api : IsClusterApi pair_web "10.0.0.3:8080" (λ s. s.1)
unfolding serve_pair serve decode_nodes decoded post_http get_http http_parse
second_api = record {
  encodes = λ n. (node n, refl);
  adds = λ n b s e. let same : b ≡ node n = cc in rw same (refl, listed-add_to n s.1);
  removes = λ n b s e. let same : b ≡ node n = cc in rw same (refl, listed-remove_from n s.1);
  lists = λ s. (nodes s.1, refl, refl);
}

abbrev pub second_leader : APod deps
second_leader =
    query_pod "second" "other-group" Constants.compute_group_role_leader (status_at "10.0.0.3")

made_second :
    make_fuse_query_pod texts two_replicas "second" "default" "other-group" true
    ≡ ok (query_pod "second" "other-group" Constants.compute_group_role_leader no_status)
unfolding make_fuse_query_pod convert_instance_spec_to_pod_spec make_envs make_ports
    make_resource_requirements fill_blank
made_second = refl

second_configured : build_pod_config texts second_leader ≡ ok (config_of values)
second_configured =
    build_pod_config-make_fuse_query_pod texts two_replicas values "second" "default" "other-group"
      true _ (status_at "10.0.0.3") spec-IsFilled made_second

-- The list of a leader's server.
abbrev pub lists : APod deps → NetState deps → List ClusterNodeRequest
lists l s = if l.meta.name == "second" then s.1 else s.0

second_address : pod_address texts second_leader (show_int (pos 8080)) ≡ "10.0.0.3:8080"
unfolding show_int show_nat digits digit
second_address = refl

first_address : pod_address texts leader (show_int (pos 8080)) ≡ server_address
unfolding show_int show_nat digits digit
first_address = refl

-- A node that one leader is told of is not put on the list of the other.
add_first-Spares :
    (p : APod deps)
    → IsServable deps p
    → (s : Nodes) → (add_node texts deps.meta pair_web leader p s).1.1 ≡ s.1
unfolding add_node post_http http_parse serve_pair
add_first-Spares p servable s = rw (leader_configured, servable.1, add_node) (rw first_address refl)

add_second-Spares :
    (p : APod deps)
    → IsServable deps p
    → (s : Nodes) → (add_node texts deps.meta pair_web second_leader p s).1.0 ≡ s.0
unfolding add_node post_http http_parse serve_pair
add_second-Spares p servable s =
    rw (second_configured, servable.1, add_node) (rw second_address refl)

remove_first-Spares :
    (p : APod deps)
    → IsServable deps p
    → (s : Nodes) → (remove_node texts deps.meta pair_web leader p s).1.1 ≡ s.1
unfolding remove_node remove_config post_http http_parse serve_pair
remove_first-Spares p servable s =
    rw (servable.1, remove_node) (rw (leader_configured, remove_config) (rw first_address refl))

remove_second-Spares :
    (p : APod deps)
    → IsServable deps p
    → (s : Nodes) → (remove_node texts deps.meta pair_web second_leader p s).1.0 ≡ s.0
unfolding remove_node remove_config post_http http_parse serve_pair
remove_second-Spares p servable s =
    rw (servable.1, remove_node) (rw (second_configured, remove_config) (rw second_address refl))

-- The store has the leaders and the worker.
abbrev find_pod : String → Option (APod deps)
find_pod k =
    if "default/leader" == k
    then some leader
    else if "default/second" == k
    then some second_leader
    else if "default/worker" == k
    then some worker
    else none

abbrev pub store : PodStore deps
store = record {
  list = pod leader ∷ pod second_leader ∷ pod worker ∷ [];
  get_by_key = λ k. ok (elim (find_pod k) [ none ↦ none | some p ↦ some (pod p) ]);
}

abbrev pub rc : RegisterController deps
rc = record { all_ns = true; pod_informers = (Constants.namespace_all, store) ∷ [] }

pub both_leaders : ready_pods deps (is_group_leader texts) store.list ≡ leader ∷ second_leader ∷ []
unfolding ready_pods is_group_leader get
both_leaders = refl

sole_worker : ready_pods deps (is_group_worker texts) store.list ≡ worker ∷ []
unfolding ready_pods is_group_worker get
sole_worker = refl

second-IsServable : IsServable deps second_leader
second-IsServable = (
  _,
  node_request-make_fuse_query_pod texts apimachinery two_replicas values "second" "default"
      "other-group" true _ (status_at "10.0.0.3") spec-IsFilled (omega arith) made_second,
)

IsServable-of_same :
    (q p : APod deps) (k : String)
    → (pod_key texts q == k) ≡ true
    → IsServable deps q
    → q ≡ p
    → (pod_key texts p ≡ k) × IsServable deps p
IsServable-of_same q p k named servable same =
    subst (λ (r : APod deps). (pod_key texts r ≡ k) × IsServable deps r) same
      (ground (arith, named, eq_iff (pod_key texts q) k), servable)

stored_sound :
    (k : String) (p : APod deps)
    → stored_pod deps store k ≡ some p
    → (pod_key texts p ≡ k) × IsServable deps p
unfolding stored_pod
stored_sound k p h = elim (Bool-cases ("default/leader" == k)) [
  | inl e ↦ IsServable-of_same leader p k e Cluster.leader-IsServable (ground (arith, e, h))
  | inr e ↦ elim (Bool-cases ("default/second" == k)) [
    | inl e' ↦ IsServable-of_same second_leader p k e' second-IsServable (ground (arith, e, e', h))
    | inr e' ↦ elim (Bool-cases ("default/worker" == k)) [
      | inl e'' ↦
          IsServable-of_same worker p k e'' worker-IsServable (ground (arith, e, e', e'', h))
      | inr e'' ↦ absurd (ground (arith, e, e', e'', h))
    ]
  ]
]

pub rc-IsServing : IsServing deps rc store
unfolding lookup
rc-IsServing = record {
  all_ns = refl;
  informed = refl;
  sound = stored_sound;
  servable = rw sole_worker (worker-IsServable, tt);
}

first_leader_api :
    IsClusterApi pair_web (pod_address texts leader (config_of values).http_port) (λ s. s.0)
first_leader_api = rw first_address first_api

second_leader_api :
    IsClusterApi pair_web (pod_address texts second_leader (config_of values).http_port) (λ s. s.1)
second_leader_api = rw second_address second_api

pub apis :
    All (IsLeaderApi deps lists rc store rc-IsServing) (leaders deps lists rc store rc-IsServing)
apis = rw both_leaders (
  (config_of values, leader_configured, first_leader_api),
  ((config_of values, second_configured, second_leader_api), tt),
)

pub added_apart :
    (p : APod deps)
    → IsServable deps p
    → AllApart deps lists
        (λ l. add_node texts deps.meta deps.web l p)
        (leaders deps lists rc store rc-IsServing)
added_apart p servable =
    rw both_leaders (((add_first-Spares p servable, add_second-Spares p servable), tt), (tt, tt))

pub removed_apart :
    (p : APod deps)
    → IsServable deps p
    → AllApart deps lists
        (λ l. remove_node texts deps.meta deps.web l p)
        (leaders deps lists rc store rc-IsServing)
removed_apart p servable =
    rw both_leaders
      (((remove_first-Spares p servable, remove_second-Spares p servable), tt), (tt, tt))
