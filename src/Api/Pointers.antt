-- ===== src/Api/Pointers.antt =====
-- DeepCopy of the types of zz_generated.deepcopy.go (pkg/apis/datafuse/v1alpha1) that are no
-- runtime.Object. The receiver is a pointer, and a nil pointer gives nil.
use datafuse_operator.Prelude.{Option, none, some}
use datafuse_operator.Api.Types.{
  ComputeInstanceSpec, ComputeInstanceStatus, ComputeSetSpec, ComputeSetStatus, ComputeGroupSpec,
  ComputeGroupServiceStatus, ComputeGroupStatus, OperatorSpec, OperatorStatus,
}
use datafuse_operator.Api.DeepCopy.{
  copy_instance_spec, copy_set_spec, copy_set_status, copy_group_spec, copy_group_status,
  copy_operator_spec, copy_operator_status,
}

unfoldable pub service_status : Option ComputeGroupServiceStatus → Option ComputeGroupServiceStatus
service_status none = none
service_status (some status) = some status

unfoldable pub group_spec : Option ComputeGroupSpec → Option ComputeGroupSpec
unfolding copy_group_spec
group_spec none = none
group_spec (some spec) = some (copy_group_spec spec)

unfoldable pub group_status : Option ComputeGroupStatus → Option ComputeGroupStatus
unfolding copy_group_status
group_status none = none
group_status (some status) = some (copy_group_status status)

unfoldable pub instance_spec : Option ComputeInstanceSpec → Option ComputeInstanceSpec
unfolding copy_instance_spec
instance_spec none = none
instance_spec (some spec) = some (copy_instance_spec spec)

unfoldable pub instance_status : Option ComputeInstanceStatus → Option ComputeInstanceStatus
instance_status none = none
instance_status (some status) = some status

unfoldable pub set_spec : Option ComputeSetSpec → Option ComputeSetSpec
unfolding copy_set_spec
set_spec none = none
set_spec (some spec) = some (copy_set_spec spec)

unfoldable pub set_status : Option ComputeSetStatus → Option ComputeSetStatus
unfolding copy_set_status
set_status none = none
set_status (some status) = some (copy_set_status status)

unfoldable pub operator_spec : Option OperatorSpec → Option OperatorSpec
unfolding copy_operator_spec
operator_spec none = none
operator_spec (some spec) = some (copy_operator_spec spec)

unfoldable pub operator_status : Option OperatorStatus → Option OperatorStatus
unfolding copy_operator_status
operator_status none = none
operator_status (some status) = some (copy_operator_status status)
