-- ===== src/Tests/MockPods.antt =====
-- A mock pod of a server of a host.
use datafuse_operator.Prelude.{true, some, ◌<>◌, ◌≡◌, refl, arith}
use datafuse_operator.Go.Int.{pos}
use datafuse_operator.Go.Text.{show_int, Lacks}
use datafuse_operator.Go.Result.{ok}
use datafuse_operator.Kube.Objects.{Pod, ResourceRequirements}
use datafuse_operator.Utils.Pods.{fill_blank, get_milli_cpu, make_resource_requirements}
use datafuse_operator.Register.Config.{FuseQueryConfigs, build_pod_config}
use datafuse_operator.Register.Nodes.{pod_address}
use datafuse_operator.Register.MockPods.{default_compute_spec, make_mock_pod_from_server}
use datafuse_operator.Register.MockServer.{make_mock_pod_from_server-pod_address}
use datafuse_operator.Tests.Fixtures.{texts}

abbrev resources : ResourceRequirements texts.Quantity
resources = record {
  requests = record { cpu = show_int (get_milli_cpu (some (pos 1))); memory = "512m" };
  limits = record { cpu = "1300m"; memory = "512m" };
}

made_resources : make_resource_requirements texts default_compute_spec.instance_spec ≡ ok resources
unfolding make_resource_requirements fill_blank
made_resources = refl

host-Lacks : Lacks b':' "query"
host-Lacks = (
  λ e. omega arith,
  (λ e. omega arith, (λ e. omega arith, (λ e. omega arith, (λ e. omega arith, tt)))),
)

make_mock_pod_from_server-pod_address_example :
    (pod : Pod texts.Quantity) × (config : FuseQueryConfigs) × (make_mock_pod_from_server texts
        ("http://" <> "query" <> ":" <> show_int (pos 8081))
        "group"
        "leader"
        "default"
        true
        true
      ≡ ok (some pod))
    × (build_pod_config texts pod ≡ ok config)
    × (pod_address texts pod config.http_port ≡ "query" <> ":" <> show_int (pos 8081))
make_mock_pod_from_server-pod_address_example =
    make_mock_pod_from_server-pod_address texts "query" (pos 8081) "group" "leader" "default" true
      true resources made_resources host-Lacks (omega arith)
