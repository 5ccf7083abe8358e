-- ===== src/Api/Defaults.antt =====
-- pkg/apis/datafuse/v1alpha1/defaults.go
use datafuse_operator.Prelude.{
  String, Bool, true, Option, none, some, List, [], ◌∷◌, ◌==◌, if◌then◌else◌, ◌≡◌, arith, not, refl,
  ◌≢◌, false, eq_iff,
}
use datafuse_operator.Kube.Meta.{MetaFuncs}
use datafuse_operator.Api.Types.{Operator, ComputeGroup, operator_created, scheme_group_version}

abbrev text_or : String → String → String
text_or s d = if s == "" then d else s

abbrev list_or : {A : Type 0} → Option (List A) → Option (List A)
list_or none = some []
list_or (some l) = some l

-- SetDatafuseOperatorDefault, on an operator that is not nil
unfoldable pub set_operator_default : Operator → Operator
set_operator_default op = record {
  meta = record op.meta {
    namespace = text_or op.meta.namespace "default";
    name = text_or op.meta.name "default-operator";
  };
  spec = record op.spec { compute_groups = list_or op.spec.compute_groups };
  status = record op.status { status = text_or op.status.status operator_created };
}

text_or_lem : (s d : String) → (d == "") ≡ false → text_or s d ≢ ""
text_or_lem s d h = ground (arith, h, eq_iff s "", eq_iff d "")

module _ (M : MetaFuncs) where
  -- `group.OwnerReferences == nil || !metav1.IsControlledBy(group, parentOperator)`
  unfoldable pub needs_owner : ComputeGroup → Operator → Bool
  needs_owner group parent = elim group.meta.owner_references [
    | none ↦ true
    | some _ ↦ not (M.is_controlled_by group.meta parent.meta)
  ]

  -- SetDatafuseComputeGroupDefaults, on an operator and a group that are not nil
  unfoldable pub set_compute_group_defaults : Operator → ComputeGroup → ComputeGroup
  unfolding needs_owner
  set_compute_group_defaults parent group = record group {
    meta = record group.meta {
      owner_references =
          if needs_owner group parent
          then some (M.new_controller_ref parent.meta scheme_group_version "DatafuseOperator" ∷ [])
          else group.meta.owner_references;
      namespace = text_or group.meta.namespace "default";
    };
  }

-- Setting the defaults of an operator leaves no gap: its namespace, its name and its state are not
-- empty and its list of groups is not nil. Setting them twice is setting them once.
set_operator_default_lem :
    (op : Operator)
    → ((set_operator_default op).meta.namespace ≢ "")
      × ((set_operator_default op).meta.name ≢ "")
      × ((set_operator_default op).status.status ≢ "")
      × ((set_operator_default op).spec.compute_groups ≢ none)
      × (set_operator_default (set_operator_default op) ≡ set_operator_default op)
unfolding set_operator_default
set_operator_default_lem op = (
  text_or_lem op.meta.namespace "default" refl,
  text_or_lem op.meta.name "default-operator" refl,
  text_or_lem op.status.status operator_created refl,
  ground arith,
  ground (arith, eq_iff op.meta.namespace "", eq_iff op.meta.name "", eq_iff op.status.status ""),
)
