-- ===== src/Utils/Groups.antt =====
-- Compute groups and the states of new objects (pkg/controllers/utils/operator_utils.go).
use datafuse_operator.Prelude.{String, ◌<>◌, Bool, none, some, [], ◌∷◌, ◌==◌, if◌then◌else◌}
use datafuse_operator.Kube.Objects.{ObjectMeta}
use datafuse_operator.Kube.Meta.{MetaFuncs, empty_meta}
use datafuse_operator.Api.Types.{
  Operator, ComputeGroup, ComputeGroupSpec, operator_created, compute_group_created,
}
use datafuse_operator.Api.Defaults.{set_compute_group_defaults}
use datafuse_operator.Constants

-- IsOperatorCreated: the operator is changed, and the result stands beside it.
unfoldable pub is_operator_created : Operator → Bool × Operator
is_operator_created op =
    let state = if op.status.status == "" then operator_created else op.status.status in
    (state == operator_created, record op { status = record op.status { status = state } })

-- IsComputeGroupCreated
unfoldable pub is_compute_group_created : ComputeGroup → Bool × ComputeGroup
is_compute_group_created group =
    let state = if group.status.status == "" then compute_group_created else group.status.status in
    (
      state == compute_group_created,
      record group { status = record group.status { status = state } },
    )

-- GetOperatorKey
unfoldable pub get_operator_key : ObjectMeta → String
get_operator_key owner = owner.namespace <> "-" <> owner.name

-- `&v1alpha1.DatafuseComputeGroup{}`
abbrev pub empty_group : ComputeGroup
empty_group = record {
  meta = empty_meta;
  spec = record { compute_leaders = none; compute_workers = none; name = ""; namespace = "" };
  status = record {
    ready_compute_leaders = none;
    ready_compute_workers = none;
    status = "";
    group_service_status = record { name = "" };
  };
}

module _ (M : MetaFuncs) where
  -- MakeComputeGroup
  unfoldable pub make_compute_group : Operator → ComputeGroupSpec → ComputeGroup
  unfolding get_operator_key
  make_compute_group owner spec =
      let group : ComputeGroup = record empty_group {
        meta = record empty_meta {
          name = spec.name;
          namespace = spec.namespace;
          labels = some ((Constants.operator_label, get_operator_key owner.meta) ∷ []);
        };
      } in
      let defaulted = set_compute_group_defaults M owner group in record defaulted { spec = spec }
