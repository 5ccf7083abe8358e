-- ===== src/Tests/Utils.antt =====
-- The theorems of the helpers at an instance, a group and a deployment.
use datafuse_operator.Prelude.{String, true, false, none, [], ◌∷◌, map, ◌==◌, ◌≡◌, refl}
use datafuse_operator.Go.Result.{ok}
use datafuse_operator.Kube.Objects.{Service, Container}
use datafuse_operator.Kube.Meta.{empty_meta}
use datafuse_operator.Api.Types.{Operator}
use datafuse_operator.Api.Defaults.{set_compute_group_defaults}
use datafuse_operator.Utils.Groups.{empty_group}
use datafuse_operator.Utils.Pods.{get_milli_cpu}
use datafuse_operator.Utils.Deployments.{make_service, add_deploy_ownership}
use datafuse_operator.Utils.Resources.{cpu_limit_covers_request}
use datafuse_operator.Utils.Selection.{service_port_of, make_service-make_deployment}
use datafuse_operator.Utils.Ownership.{set_compute_group_defaults_lem, add_deploy_ownership_lem}
use datafuse_operator.Tests.Fixtures.{
  texts, apimachinery, apimachinery-IsLawful, instance_spec, two_replicas, resources,
  made_resources,
}
use datafuse_operator.Tests.Deployments.{group, made, makes}

abbrev bare_operator : Operator
bare_operator = record {
  meta = record empty_meta { uid = "u0" };
  spec = record { compute_groups = none; version = none };
  status = record { compute_group_states = none; status = "" };
}

set_compute_group_defaults_lem_example :
    (apimachinery.is_controlled_by
        (set_compute_group_defaults apimachinery bare_operator empty_group).meta
        bare_operator.meta
      ≡ true)
    × (((set_compute_group_defaults apimachinery bare_operator empty_group).meta.namespace == "")
        ≡ false)
    × (set_compute_group_defaults apimachinery bare_operator
          (set_compute_group_defaults apimachinery bare_operator empty_group)
        ≡ set_compute_group_defaults apimachinery bare_operator empty_group)
set_compute_group_defaults_lem_example =
    set_compute_group_defaults_lem apimachinery apimachinery-IsLawful bare_operator empty_group

add_deploy_ownership_lem_example :
    (apimachinery.is_controlled_by
        (add_deploy_ownership texts apimachinery made group).meta
        group.meta
      ≡ true)
    × (add_deploy_ownership texts apimachinery
          (add_deploy_ownership texts apimachinery made group)
          group
        ≡ add_deploy_ownership texts apimachinery made group)
add_deploy_ownership_lem_example =
    add_deploy_ownership_lem apimachinery apimachinery-IsLawful texts made group refl

cpu_limit_covers_request_example :
    (texts.less resources.limits.cpu resources.requests.cpu ≡ false)
    × (resources.requests.cpu ≡ texts.new_milli_quantity (get_milli_cpu instance_spec.cores))
cpu_limit_covers_request_example =
    cpu_limit_covers_request texts (λ q. refl) instance_spec resources made_resources

make_service-make_deployment_example :
    (s : Service) × (c : Container String) × (make_service texts "group" made ≡ ok s)
    × (s.meta.name ≡ "group")
    × (s.meta.namespace ≡ "default")
    × (s.spec.selector ≡ made.spec.template.meta.labels)
    × (s.spec.selector ≡ made.spec.match_labels)
    × (made.spec.template.spec.containers ≡ c ∷ [])
    × (s.spec.ports ≡ map service_port_of c.ports)
make_service-make_deployment_example =
    make_service-make_deployment texts two_replicas "group-worker0" "default" "" "default-group"
      false "group" made makes
