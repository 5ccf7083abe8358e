-- ===== src/Api/DeepCopy.antt =====
-- pkg/apis/datafuse/v1alpha1/zz_generated.deepcopy.go. A copy of an object's metadata is made by
-- apimachinery, so it is a parameter.
use datafuse_operator.Prelude.{Option, none, some, List, [], ◌∷◌}
use datafuse_operator.Go.Map.{Entries, GoMap, insert}
use datafuse_operator.Kube.Objects.{ObjectMeta}
use datafuse_operator.Api.Types.{
  ComputeInstanceSpec, ComputeSetSpec, ComputeSetStatus, ComputeGroupSpec, ComputeGroupStatus,
  ComputeGroup, OperatorSpec, OperatorStatus, Operator,
}

-- `for key, val := range *in { (*out)[key] = val }`
unfoldable pub copy_entries : {V : Type 0} → Entries V → Entries V → Entries V
copy_entries [] out = out
copy_entries ((key, val) ∷ m) out = copy_entries m (insert key val out)

unfoldable pub copy_map : {V : Type 0} → GoMap V → GoMap V
unfolding copy_entries
copy_map none = none
copy_map (some m) = some (copy_entries m [])

-- `*out = new(T); **out = **in`, or a DeepCopyInto of what a pointer points to
unfoldable pub copy_pointer : {A : Type 0} → (A → A) → Option A → Option A
copy_pointer copy none = none
copy_pointer copy (some a) = some (copy a)

-- The loop over a slice of pointers.
unfoldable pub copy_pointers : {A : Type 0} → (A → A) → List (Option A) → List (Option A)
unfolding copy_pointer
copy_pointers copy [] = []
copy_pointers copy (p ∷ ps) = copy_pointer copy p ∷ copy_pointers copy ps

unfoldable pub copy_slice :
    {A : Type 0} → (A → A) → Option (List (Option A)) → Option (List (Option A))
unfolding copy_pointers
copy_slice copy none = none
copy_slice copy (some ps) = some (copy_pointers copy ps)

unfoldable pub copy_instance_spec : ComputeInstanceSpec → ComputeInstanceSpec
unfolding copy_map copy_pointer
copy_instance_spec spec = record {
  name = copy_pointer (λ a. a) spec.name;
  cores = copy_pointer (λ a. a) spec.cores;
  core_limit = copy_pointer (λ a. a) spec.core_limit;
  memory = copy_pointer (λ a. a) spec.memory;
  memory_limit = copy_pointer (λ a. a) spec.memory_limit;
  labels = copy_map spec.labels;
  image = copy_pointer (λ a. a) spec.image;
  image_pull_policy = copy_pointer (λ a. a) spec.image_pull_policy;
  priority = copy_pointer (λ a. a) spec.priority;
  mysql_port = copy_pointer (λ a. a) spec.mysql_port;
  clickhouse_port = copy_pointer (λ a. a) spec.clickhouse_port;
  http_port = copy_pointer (λ a. a) spec.http_port;
  rpc_port = copy_pointer (λ a. a) spec.rpc_port;
  metrics_port = copy_pointer (λ a. a) spec.metrics_port;
}

unfoldable pub copy_set_spec : ComputeSetSpec → ComputeSetSpec
unfolding copy_instance_spec
copy_set_spec set = record {
  replicas = copy_pointer (λ a. a) set.replicas;
  instance_spec = copy_instance_spec set.instance_spec;
}

unfoldable pub copy_set_status : ComputeSetStatus → ComputeSetStatus
unfolding copy_map
copy_set_status status = record status { instances_status = copy_map status.instances_status }

unfoldable pub copy_group_spec : ComputeGroupSpec → ComputeGroupSpec
unfolding copy_set_spec copy_slice
copy_group_spec spec = record spec {
  compute_leaders = copy_pointer copy_set_spec spec.compute_leaders;
  compute_workers = copy_slice copy_set_spec spec.compute_workers;
}

unfoldable pub copy_group_status : ComputeGroupStatus → ComputeGroupStatus
unfolding copy_map
copy_group_status status = record status {
  ready_compute_leaders = copy_map status.ready_compute_leaders;
  ready_compute_workers = copy_map status.ready_compute_workers;
}

unfoldable pub copy_operator_spec : OperatorSpec → OperatorSpec
unfolding copy_group_spec
copy_operator_spec spec = record {
  compute_groups = copy_slice copy_group_spec spec.compute_groups;
  version = copy_pointer (λ a. a) spec.version;
}

unfoldable pub copy_operator_status : OperatorStatus → OperatorStatus
unfolding copy_map
copy_operator_status status = record status {
  compute_group_states = copy_map status.compute_group_states;
}

module _ (copy_meta : ObjectMeta → ObjectMeta) where
  -- DeepCopy of a DatafuseComputeGroup that is not nil
  unfoldable pub copy_group : ComputeGroup → ComputeGroup
  unfolding copy_group_spec copy_group_status
  copy_group group = record {
    meta = copy_meta group.meta;
    spec = copy_group_spec group.spec;
    status = copy_group_status group.status;
  }

  -- DeepCopy of a DatafuseOperator that is not nil
  unfoldable pub copy_operator : Operator → Operator
  unfolding copy_operator_spec copy_operator_status
  copy_operator op = record {
    meta = copy_meta op.meta;
    spec = copy_operator_spec op.spec;
    status = copy_operator_status op.status;
  }
