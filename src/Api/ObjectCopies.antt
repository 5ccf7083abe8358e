-- ===== src/Api/ObjectCopies.antt =====
-- pkg/apis/datafuse/v1alpha1/zz_generated.deepcopy.go: the copies of the lists and of a
-- runtime.Object. apimachinery copies the metadata of an object and of a list, so these copies are
-- parameters.
use datafuse_operator.Prelude.{Option, none, some, List, [], ◌∷◌, All, ◌≡◌, refl, ap}
use datafuse_operator.Kube.Objects.{ObjectMeta}
use datafuse_operator.Api.Types.{ComputeGroup, Operator}
use datafuse_operator.Api.DeepCopy.{copy_group, copy_operator}
use datafuse_operator.Api.Copies.{
  IsGoMap, AllBehind, HasGroupMaps, copy_group_lem, copy_operator_lem,
}

module _ (ListMeta : Type 0) where
  -- DatafuseComputeGroupList
  pub record ComputeGroupList : Type 0 where
    pub list_meta : ListMeta
    pub items : Option (List ComputeGroup)

  -- DatafuseOperatorList
  pub record OperatorList : Type 0 where
    pub list_meta : ListMeta
    pub items : Option (List Operator)

  -- A runtime.Object: a pointer to an object or to a list.
  pub data RuntimeObject : Type 0 where
    group_object : Option ComputeGroup → RuntimeObject
    group_list_object : Option ComputeGroupList → RuntimeObject
    operator_object : Option Operator → RuntimeObject
    operator_list_object : Option OperatorList → RuntimeObject

module _ (copy_meta : ObjectMeta → ObjectMeta) where
  -- The loops over the items.
  unfoldable pub copy_groups : List ComputeGroup → List ComputeGroup
  unfolding copy_group
  copy_groups [] = []
  copy_groups (group ∷ groups) = copy_group copy_meta group ∷ copy_groups groups

  unfoldable pub copy_operators : List Operator → List Operator
  unfolding copy_operator
  copy_operators [] = []
  copy_operators (op ∷ ops) = copy_operator copy_meta op ∷ copy_operators ops

module _ {ListMeta : Type 0} (copy_meta : ObjectMeta → ObjectMeta)
    (copy_list_meta : ListMeta → ListMeta) where
  -- DatafuseComputeGroupList.DeepCopyInto
  unfoldable pub copy_group_list : ComputeGroupList ListMeta → ComputeGroupList ListMeta
  unfolding copy_groups
  copy_group_list groups = record {
    list_meta = copy_list_meta groups.list_meta;
    items = elim groups.items [ none ↦ none | some items ↦ some (copy_groups copy_meta items) ];
  }

  -- DatafuseOperatorList.DeepCopyInto
  unfoldable pub copy_operator_list : OperatorList ListMeta → OperatorList ListMeta
  unfolding copy_operators
  copy_operator_list ops = record {
    list_meta = copy_list_meta ops.list_meta;
    items = elim ops.items [ none ↦ none | some items ↦ some (copy_operators copy_meta items) ];
  }

  -- DeepCopy of the objects and the lists, and DeepCopyObject, where a nil pointer gives a nil interface.
  unfoldable pub deep_copy_object : RuntimeObject ListMeta → Option (RuntimeObject ListMeta)
  unfolding copy_group copy_group_list copy_operator copy_operator_list
  deep_copy_object (group_object (some group)) =
      some (group_object (some (copy_group copy_meta group)))
  deep_copy_object (group_list_object (some groups)) =
      some (group_list_object (some (copy_group_list groups)))
  deep_copy_object (operator_object (some op)) =
      some (operator_object (some (copy_operator copy_meta op)))
  deep_copy_object (operator_list_object (some ops)) =
      some (operator_list_object (some (copy_operator_list ops)))
  deep_copy_object _ = none

-- The items of a list, which may be nil, have a property.
abbrev pub AllItems : {A : Type 0} → (A → Type 0) → Option (List A) → Type 0
AllItems P none = Unit
AllItems P (some items) = All P items

-- Each map of a group, or of an operator, has a key once.
abbrev pub IsGroup : ComputeGroup → Type 0
IsGroup group =
    HasGroupMaps group.spec
    × IsGoMap group.status.ready_compute_leaders
    × IsGoMap group.status.ready_compute_workers

abbrev pub IsOperator : Operator → Type 0
IsOperator op =
    AllBehind HasGroupMaps op.spec.compute_groups × IsGoMap op.status.compute_group_states

-- An object, or a list of objects, whose maps have a key once; a pointer that is not nil.
unfoldable pub IsObject : {ListMeta : Type 0} → RuntimeObject ListMeta → Type 0
IsObject (group_object (some group)) = IsGroup group
IsObject (group_list_object (some groups)) = AllItems IsGroup groups.items
IsObject (operator_object (some op)) = IsOperator op
IsObject (operator_list_object (some ops)) = AllItems IsOperator ops.items
IsObject _ = ⊥

module _ (copy_meta : ObjectMeta → ObjectMeta) (copies : (o : ObjectMeta) → copy_meta o ≡ o) where
  copy_groups_lem :
      (groups : List ComputeGroup) → All IsGroup groups → copy_groups copy_meta groups ≡ groups
  unfolding copy_groups
  copy_groups_lem [] _ = refl
  copy_groups_lem (group ∷ groups) ((h, leaders, workers), hs) =
      rw (copy_group_lem copy_meta copies group h leaders workers, copy_groups_lem groups hs) refl

  copy_operators_lem :
      (ops : List Operator) → All IsOperator ops → copy_operators copy_meta ops ≡ ops
  unfolding copy_operators
  copy_operators_lem [] _ = refl
  copy_operators_lem (op ∷ ops) ((h, states), hs) =
      rw (copy_operator_lem copy_meta copies op h states, copy_operators_lem ops hs) refl

  module _ {ListMeta : Type 0} (copy_list_meta : ListMeta → ListMeta)
      (copies_list : (o : ListMeta) → copy_list_meta o ≡ o) where
    copy_group_list_lem :
        (items : Option (List ComputeGroup)) (meta : ListMeta)
        → AllItems IsGroup items
        → copy_group_list copy_meta copy_list_meta (record { list_meta = meta; items = items })
          ≡ record { list_meta = meta; items = items }
    unfolding copy_group_list
    copy_group_list_lem none meta h = rw (copies_list meta) refl
    copy_group_list_lem (some items) meta h = rw (copies_list meta, copy_groups_lem items h) refl

    copy_operator_list_lem :
        (items : Option (List Operator)) (meta : ListMeta)
        → AllItems IsOperator items
        → copy_operator_list copy_meta copy_list_meta (record { list_meta = meta; items = items })
          ≡ record { list_meta = meta; items = items }
    unfolding copy_operator_list
    copy_operator_list_lem none meta h = rw (copies_list meta) refl
    copy_operator_list_lem (some items) meta h =
        rw (copies_list meta, copy_operators_lem items h) refl

    -- DeepCopyObject of an object or a list of objects, each of whose maps has a key once, gives an
    -- equal one, when apimachinery's copies of its metadata are equal.
    pub deep_copy_object_lem :
        (o : RuntimeObject ListMeta)
        → IsObject o
        → deep_copy_object copy_meta copy_list_meta o ≡ some o
    unfolding deep_copy_object IsObject
    deep_copy_object_lem (group_object (some group)) (h, leaders, workers) =
        rw (copy_group_lem copy_meta copies group h leaders workers) refl
    deep_copy_object_lem (group_list_object (some groups)) h =
        ap (λ l. some (group_list_object (some l)))
          (copy_group_list_lem groups.items groups.list_meta h)
    deep_copy_object_lem (operator_object (some op)) (h, states) =
        rw (copy_operator_lem copy_meta copies op h states) refl
    deep_copy_object_lem (operator_list_object (some ops)) h =
        ap (λ l. some (operator_list_object (some l)))
          (copy_operator_list_lem ops.items ops.list_meta h)
    deep_copy_object_lem (group_object none) h = absurd h
    deep_copy_object_lem (group_list_object none) h = absurd h
    deep_copy_object_lem (operator_object none) h = absurd h
    deep_copy_object_lem (operator_list_object none) h = absurd h
