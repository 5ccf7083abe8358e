-- ===== src/Api/Types.antt =====
-- The custom resources of pkg/apis/datafuse/v1alpha1/datafuse*_types.go. A pointer is an `Option`, a
-- slice of pointers a list of `Option`s (`none` is the nil slice), and a map a `GoMap`. States are
-- their texts, as in the source, so "" is a state too.
use datafuse_operator.Prelude.{String, Option, List}
use datafuse_operator.Go.Int.{ℤ}
use datafuse_operator.Go.Map.{GoMap}
use datafuse_operator.Kube.Objects.{ObjectMeta}

abbrev pub compute_instance_ready_state : String
compute_instance_ready_state = "READY"

pub record ComputeInstanceSpec : Type 0 where
  pub name : Option String
  pub cores : Option ℤ
  pub core_limit : Option String
  pub memory : Option String
  pub memory_limit : Option String
  pub labels : GoMap String
  pub image : Option String
  pub image_pull_policy : Option String
  pub priority : Option ℤ
  pub mysql_port : Option ℤ
  pub clickhouse_port : Option ℤ
  pub http_port : Option ℤ
  pub rpc_port : Option ℤ
  pub metrics_port : Option ℤ

pub record ComputeInstanceStatus : Type 0 where
  pub status : String

pub record ComputeSetSpec : Type 0 where
  pub replicas : Option ℤ
  pub instance_spec : ComputeInstanceSpec

pub record ComputeSetStatus : Type 0 where
  pub replicas : ℤ
  pub selector : String
  pub instances_status : GoMap String

abbrev pub compute_group_deployed : String
compute_group_deployed = "Ready"

abbrev pub compute_group_pending : String
compute_group_pending = "Pending"

abbrev pub compute_group_created : String
compute_group_created = "Created"

pub record ComputeGroupSpec : Type 0 where
  pub compute_leaders : Option ComputeSetSpec
  pub compute_workers : Option (List (Option ComputeSetSpec))
  pub name : String
  pub namespace : String

pub record ComputeGroupServiceStatus : Type 0 where
  pub name : String

pub record ComputeGroupStatus : Type 0 where
  pub ready_compute_leaders : GoMap String
  pub ready_compute_workers : GoMap String
  pub status : String
  pub group_service_status : ComputeGroupServiceStatus

pub record ComputeGroup : Type 0 where
  pub meta : ObjectMeta
  pub spec : ComputeGroupSpec
  pub status : ComputeGroupStatus

abbrev pub operator_ready : String
operator_ready = "Ready"

abbrev pub operator_created : String
operator_created = "Created"

pub record OperatorSpec : Type 0 where
  pub compute_groups : Option (List (Option ComputeGroupSpec))
  pub version : Option String

pub record OperatorStatus : Type 0 where
  pub compute_group_states : GoMap String
  pub status : String

-- DatafuseOperator
pub record Operator : Type 0 where
  pub meta : ObjectMeta
  pub spec : OperatorSpec
  pub status : OperatorStatus

-- SchemeGroupVersion (groupversion_info.go), as its text.
abbrev pub scheme_group_version : String
scheme_group_version = "datafuse.datafuselabs.io/v1alpha1"
