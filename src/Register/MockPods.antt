-- ===== src/Register/MockPods.antt =====
-- The pods of the tests of the register controller (pkg/controllers/register/register_test_utils.go).
use datafuse_operator.Prelude.{String, Bool, Option, none, some, List, [], ◌∷◌, ◌++◌, if◌then◌else◌}
use datafuse_operator.Go.Int.{ℤ, pos, int32}
use datafuse_operator.Go.Text.{split_n, atoi, trim_prefix}
use datafuse_operator.Go.Result.{Result, ok, err, panic, ◌>>=◌}
use datafuse_operator.Kube.Objects.{Pod, PodCondition}
use datafuse_operator.Kube.Meta.{Quantities}
use datafuse_operator.Api.Types.{ComputeSetSpec}
use datafuse_operator.Api.DeepCopy.{copy_set_spec}
use datafuse_operator.Utils.Pods.{make_fuse_query_pod}

-- DefaultComputeSpec
abbrev pub default_compute_spec : ComputeSetSpec
default_compute_spec = record {
  replicas = some (pos 1);
  instance_spec = record {
    name = none;
    cores = some (pos 1);
    core_limit = some "1300m";
    memory = some "512m";
    memory_limit = some "512m";
    labels = none;
    image = some "zhihanz/fuse-query:latest";
    image_pull_policy = some "Always";
    priority = some (pos 1);
    mysql_port = some (pos 3306);
    clickhouse_port = some (pos 9000);
    http_port = some (pos 8080);
    rpc_port = some (pos 9091);
    metrics_port = some (pos 9098);
  };
}

module _ (Q : Quantities) where
  open Q use {Quantity}

  -- createMockStatus
  unfoldable pub create_mock_status : Pod Quantity → String → Pod Quantity
  create_mock_status pod kind =
      let conditions : List PodCondition = elim pod.status.conditions [ none ↦ [] | some l ↦ l ] in
      record pod {
        status = record pod.status {
          conditions = some (conditions ++ record { kind = kind; status = "True" } ∷ []);
        };
      }

  -- `if isReady { createMockStatus(pod, v1.PodReady) }`
  unfoldable pub ready_if : Bool → Pod Quantity → Pod Quantity
  unfolding create_mock_status
  ready_if is_ready pod = if is_ready then create_mock_status pod "Ready" else pod

  -- `pod.Status.PodIP = ip`
  abbrev pub at_ip : String → Pod Quantity → Pod Quantity
  at_ip ip pod = record pod { status = record pod.status { pod_ip = ip } }

  -- makeMockPod
  unfoldable pub make_mock_pod :
      String → String → String → String → Bool → Bool → Result (Pod Quantity)
  unfolding ready_if
  make_mock_pod group_key name namespace ip is_leader is_ready = do
    pod ← make_fuse_query_pod Q default_compute_spec name namespace group_key is_leader
    ok (at_ip ip (ready_if is_ready pod))

  -- makeIreleventMockPod
  unfoldable pub make_irelevent_mock_pod :
      String → String → String → Bool → Bool → Result (Pod Quantity)
  unfolding ready_if
  make_irelevent_mock_pod group_key name namespace is_leader is_ready = do
    pod ← make_fuse_query_pod Q default_compute_spec name namespace group_key is_leader
    ok (ready_if is_ready (record pod { meta = record pod.meta { labels = some [] } }))

  -- makeMockPodFromServer behind strconv.Atoi, for the host of the server
  unfoldable pub mock_pod_at :
      String → String → String → Bool → Bool → String → Result ℤ → Result (Option (Pod Quantity))
  unfolding ready_if copy_set_spec
  mock_pod_at group_key name namespace is_leader is_ready host (err _) = ok none
  mock_pod_at group_key name namespace is_leader is_ready host panic = panic
  mock_pod_at group_key name namespace is_leader is_ready host (ok s) = do
    let instance' = copy_set_spec default_compute_spec
    let set = record instance' {
      instance_spec = record instance'.instance_spec { http_port = some (int32 s) };
    }
    pod ← make_fuse_query_pod Q set name namespace group_key is_leader
    ok (some (at_ip host (ready_if is_ready pod)))

  -- `str[0]` and `str[1]`
  unfoldable pub mock_pod_of :
      String → String → String → Bool → Bool → List String → Result (Option (Pod Quantity))
  unfolding mock_pod_at
  mock_pod_of group_key name namespace is_leader is_ready (host ∷ port ∷ _) =
      mock_pod_at group_key name namespace is_leader is_ready host (atoi port)
  mock_pod_of group_key name namespace is_leader is_ready _ = panic

  -- makeMockPodFromServer, for the URL of the server; `none` is nil.
  unfoldable pub make_mock_pod_from_server :
      String → String → String → String → Bool → Bool → Result (Option (Pod Quantity))
  unfolding mock_pod_of
  make_mock_pod_from_server url group_key name namespace is_leader is_ready =
      mock_pod_of group_key name namespace is_leader is_ready
        (split_n b':' (trim_prefix "http://" url))
