-- ===== src/Tests/Fixtures.antt =====
-- Small models of the Kubernetes libraries: quantities by their texts, owner references, and an
-- instance with its pods.
use datafuse_operator.Prelude.{
  String, ◌<>◌, Bool, true, false, Option, none, some, List, [], ◌∷◌, ◌==◌, nat_eq, ◌≡◌, refl, ap,
}
use datafuse_operator.Go.Int.{pos}
use datafuse_operator.Go.Text.{show_int}
use datafuse_operator.Go.Result.{GoError, ok, external}
use datafuse_operator.Kube.Objects.{
  ObjectMeta, OwnerReference, Pod, PodSpec, PodStatus, ResourceRequirements,
}
use datafuse_operator.Kube.Meta.{empty_meta, MetaFuncs, IsLawful, Quantities}
use datafuse_operator.Constants
use datafuse_operator.Api.Types.{ComputeInstanceSpec, ComputeSetSpec}
use datafuse_operator.Utils.Pods.{
  make_ports, port_list, env_list, make_envs, make_probe, make_resource_requirements, get_milli_cpu,
  convert_instance_spec_to_pod_spec, make_fuse_query_pod, fill_blank,
}

abbrev pub texts : Quantities
texts = record {
  Quantity = String;
  new_milli_quantity = show_int;
  must_parse = ok;
  less = λ _ _. false;
}

-- The first reference that is a controller.
abbrev first_controller : List OwnerReference → Option OwnerReference
first_controller [] = none
first_controller (r ∷ rs) = elim r.controller [ some true ↦ some r | _ ↦ first_controller rs ]

abbrev controller_of : Option (List OwnerReference) → Option OwnerReference
controller_of none = none
controller_of (some rs) = first_controller rs

abbrev is_owner : Option OwnerReference → ObjectMeta → Bool
is_owner none owner = false
is_owner (some r) owner = r.uid == owner.uid

abbrev is_404 : GoError → Bool
is_404 (external n _) = nat_eq n 404
is_404 _ = false

abbrev pub apimachinery : MetaFuncs
apimachinery = record {
  get_controller_of = λ o. controller_of o.owner_references;
  is_controlled_by = λ o owner. is_owner (controller_of o.owner_references) owner;
  new_controller_ref = λ owner version kind. record {
    api_version = version;
    kind = kind;
    name = owner.name;
    uid = owner.uid;
    controller = some true;
  };
  is_not_found = is_404;
  new_not_found = λ resource name. external 404 (resource <> " " <> name);
  error_text = λ _. "error";
}

pub apimachinery-IsLawful : IsLawful apimachinery
apimachinery-IsLawful = record {
  controlled_by = λ o owner r e. ap (λ c. is_owner c owner) e;
  not_controlled = λ o owner e. ap (λ c. is_owner c owner) e;
  sole_controller = λ o owner version kind e. ap controller_of e;
  by_references = λ o o' e. ap controller_of e;
  nil_references = λ o e. ap controller_of e;
  no_references = λ o e. ap controller_of e;
  ref_uid = λ owner version kind. refl;
  ref_kind = λ owner version kind. refl;
  not_found = λ resource name. refl;
}

abbrev pub instance_spec : ComputeInstanceSpec
instance_spec = record {
  name = none;
  cores = some (pos 2);
  core_limit = none;
  memory = some "512Mi";
  memory_limit = some "1Gi";
  labels = none;
  image = some "datafuse";
  image_pull_policy = some "Always";
  priority = some (pos 1);
  mysql_port = some (pos 3306);
  clickhouse_port = some (pos 9000);
  http_port = some (pos 8080);
  rpc_port = some (pos 9090);
  metrics_port = some (pos 7070);
}

abbrev pub two_replicas : ComputeSetSpec
two_replicas = record { replicas = some (pos 2); instance_spec = instance_spec }

abbrev pub resources : ResourceRequirements String
resources = record {
  requests = record { cpu = show_int (get_milli_cpu (some (pos 2))); memory = "512Mi" };
  limits = record { cpu = show_int (get_milli_cpu (some (pos 2))); memory = "1Gi" };
}

abbrev pub container_spec : PodSpec String
container_spec = record {
  containers =
      record {
        name = Constants.instance_container_name;
        image = "datafuse";
        image_pull_policy = "Always";
        env = env_list (pos 2) (pos 3306) (pos 9000) (pos 8080) (pos 7070) (pos 9090) (pos 1);
        ports = port_list (pos 8080) (pos 3306) (pos 9000) (pos 9090) (pos 7070);
        liveness_probe = make_probe "/v1/hello" Constants.container_http_port;
        readiness_probe = make_probe "/v1/configs" Constants.container_http_port;
        resources = resources;
        args = [];
      }
      ∷ [];
}

pub made_resources : make_resource_requirements texts instance_spec ≡ ok resources
unfolding make_resource_requirements fill_blank
made_resources = refl

pub made_spec : convert_instance_spec_to_pod_spec texts instance_spec ≡ ok container_spec
unfolding convert_instance_spec_to_pod_spec make_envs make_ports make_resource_requirements
    fill_blank
made_spec = refl

-- A pod of the instance.
abbrev pub query_pod : String → String → String → PodStatus → Pod String
query_pod name group_key role status = record {
  meta = record empty_meta {
    name = name;
    namespace = "default";
    labels = some (
        (Constants.compute_group_label, group_key)
        ∷ (Constants.compute_group_role_label, role)
        ∷ []);
  };
  spec = container_spec;
  status = status;
}

abbrev pub no_status : PodStatus
no_status = record { pod_ip = ""; conditions = none }

pub made_leader :
    make_fuse_query_pod texts two_replicas "leader" "default" "group" true
    ≡ ok (query_pod "leader" "group" Constants.compute_group_role_leader no_status)
unfolding make_fuse_query_pod convert_instance_spec_to_pod_spec make_envs make_ports
    make_resource_requirements fill_blank
made_leader = refl

pub made_worker :
    make_fuse_query_pod texts two_replicas "worker" "default" "other-group" false
    ≡ ok (query_pod "worker" "other-group" Constants.compute_group_role_follower no_status)
unfolding make_fuse_query_pod convert_instance_spec_to_pod_spec make_envs make_ports
    make_resource_requirements fill_blank
made_worker = refl
