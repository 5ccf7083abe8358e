-- ===== src/Client/Listers.antt =====
-- pkg/client/listers/datafuse/v1alpha1: the listers of compute groups and of operators, which are the
-- same code for two types. The indexer is client-go's, and what it keeps is of any type: an object of
-- another type fails a lister's type assertion.
use datafuse_operator.Prelude.{String, ◌<>◌, Option, none, some, List, [], ◌∷◌}
use datafuse_operator.Go.Result.{Result, GoError, ok, err, panic, ◌>>=◌}
use datafuse_operator.Api.Types.{ComputeGroup, Operator}

-- What an indexer keeps.
pub data Indexed : Type 0 where
  group_entry : ComputeGroup → Indexed
  operator_entry : Operator → Indexed
  other_entry : Indexed

-- cache.Indexer: the objects that cache.ListAll and cache.ListAllByNamespace hand to the function that
-- they are given, with their error, and GetByKey.
pub record Indexer : Type 1 where
  pub Selector : Type 0
  pub list_all : Selector → List Indexed × Option GoError
  pub list_all_by_namespace : String → Selector → List Indexed × Option GoError
  pub get_by_key : String → Result (Option Indexed)

-- The type assertions `m.(*v1alpha1.DatafuseComputeGroup)` and `m.(*v1alpha1.DatafuseOperator)`
unfoldable pub as_group : Indexed → Result ComputeGroup
as_group (group_entry group) = ok group
as_group _ = panic

unfoldable pub as_operator : Indexed → Result Operator
as_operator (operator_entry op) = ok op
as_operator _ = panic

module _ {T : Type 0} (cast : Indexed → Result T) where
  -- `ret = append(ret, m.(*T))`, for each object
  unfoldable pub append_all : List Indexed → Result (List T)
  append_all [] = ok []
  append_all (m ∷ ms) = cast m >>= λ x. append_all ms >>= λ rest. ok (x ∷ rest)

module _ (I : Indexer) where
  -- List of the lister of compute groups, and of that of a namespace
  unfoldable pub list_groups : I.Selector → Result (List ComputeGroup × Option GoError)
  unfolding append_all
  list_groups selector =
      let (objs, e) = I.list_all selector in append_all as_group objs >>= λ ret. ok (ret, e)

  unfoldable pub list_namespace_groups :
      String → I.Selector → Result (List ComputeGroup × Option GoError)
  unfolding append_all
  list_namespace_groups namespace selector =
      let (objs, e) = I.list_all_by_namespace namespace selector in
      append_all as_group objs >>= λ ret. ok (ret, e)

  -- List of the lister of operators, and of that of a namespace
  unfoldable pub list_operators : I.Selector → Result (List Operator × Option GoError)
  unfolding append_all
  list_operators selector =
      let (objs, e) = I.list_all selector in append_all as_operator objs >>= λ ret. ok (ret, e)

  unfoldable pub list_namespace_operators :
      String → I.Selector → Result (List Operator × Option GoError)
  unfolding append_all
  list_namespace_operators namespace selector =
      let (objs, e) = I.list_all_by_namespace namespace selector in
      append_all as_operator objs >>= λ ret. ok (ret, e)

  module _ (new_not_found : String → String → GoError) where
    -- Get of the lister of compute groups
    unfoldable pub get_group : String → String → Result ComputeGroup
    unfolding as_group
    get_group namespace name = elim (I.get_by_key (namespace <> "/" <> name)) [
      | ok (some obj) ↦ as_group obj
      | ok none ↦ err (new_not_found "datafusecomputegroup" name)
      | err e ↦ err e
      | panic ↦ panic
    ]

    -- Get of the lister of operators
    unfoldable pub get_operator : String → String → Result Operator
    unfolding as_operator
    get_operator namespace name = elim (I.get_by_key (namespace <> "/" <> name)) [
      | ok (some obj) ↦ as_operator obj
      | ok none ↦ err (new_not_found "datafuseoperator" name)
      | err e ↦ err e
      | panic ↦ panic
    ]
