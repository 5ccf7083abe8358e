-- ===== src/Operator/Events.antt =====
-- The event handlers of NewController, handleUnneededDeployments and handleObject
-- (pkg/controllers/operator/operator_controller.go).
use datafuse_operator.Prelude.{
  ℕ, ◌+◌, String, ◌<>◌, Option, none, some, List, [], ◌∷◌, ◌==◌, if◌then◌else◌,
}
use datafuse_operator.Go.Int.{pos}
use datafuse_operator.Go.Text.{show_int}
use datafuse_operator.Go.Map.{Entries, lookup, insert, keys}
use datafuse_operator.Go.Result.{Result, ok, err, panic}
use datafuse_operator.Go.Exec.{Exec, pure, lift, attempt, ◌>>=◌, ◌>>◌}
use datafuse_operator.Kube.Objects.{ObjectMeta}
use datafuse_operator.Kube.Queue.{WorkQueue}
use datafuse_operator.Api.Types.{ComputeGroup, ComputeSetSpec}
use datafuse_operator.Operator.Deps.{OperatorDeps, World, call, items, lister_get}
use datafuse_operator.Operator.Sets.{fill_name}

-- An interface{} value that a handler of compute groups is given: informers deliver pointers.
pub data GroupObject : Type 0 where
  group_value : ComputeGroup → GroupObject
  group_pointer : ComputeGroup → GroupObject
  other : GroupObject

-- An interface{} value that handleObject is given: an object by its metadata, or a tombstone with the
-- last known object if that is one.
pub data AnyObject : Type 0 where
  object : ObjectMeta → AnyObject
  tombstone : Option ObjectMeta → AnyObject
  invalid : AnyObject

-- The loop of buildNamedSpec over the workers, from worker number i.
unfoldable pub named_workers :
    String
    → ℕ
    → List (Option ComputeSetSpec)
    → Entries ComputeSetSpec
    → Result (Entries ComputeSetSpec)
named_workers group i [] ans = ok ans
named_workers group i (none ∷ workers) ans = panic
named_workers group i (some worker ∷ workers) ans =
    named_workers group (i + 1) workers
      (insert (fill_name worker.instance_spec (group <> "-worker" <> show_int (pos i))) worker ans)

-- `buildNamedSpec` in handleUnneededDeployments
unfoldable pub build_named_spec : ComputeGroup → Result (Entries ComputeSetSpec)
build_named_spec group = elim group.spec.compute_leaders [
  | none ↦ panic
  | some leaders ↦
      named_workers group.meta.name 0 (items group.spec.compute_workers)
        (insert (fill_name leaders.instance_spec (group.meta.name <> "-leader")) leaders [])
]

module _ (D : OperatorDeps) where
  -- The loop over the old names. The error of Delete is dropped.
  unfoldable pub delete_unneeded :
      String → Entries ComputeSetSpec → List String → Exec (World D) (Unit {0})
  delete_unneeded namespace new_names [] = pure tt
  delete_unneeded namespace new_names (name ∷ names) =
      let rest = delete_unneeded namespace new_names names in
      elim (lookup name new_names) [
        | some _ ↦ rest
        | none ↦ attempt (call D (D.delete_deployment namespace name)) >> rest
      ]

  -- handleUnneededDeployments
  unfoldable pub handle_unneeded_deployments :
      ComputeGroup → ComputeGroup → Exec (World D) (Unit {0})
  handle_unneeded_deployments old new = do
    old_names ← lift (build_named_spec old)
    new_names ← lift (build_named_spec new)
    delete_unneeded old.meta.namespace new_names (D.range (keys old_names))

  module _ (Q : WorkQueue GroupObject) where
    -- AddFunc of the compute groups
    unfoldable pub on_group_added : GroupObject → Q.State → Q.State
    on_group_added new_obj q = Q.add_rate_limited new_obj q

    -- UpdateFunc of the compute groups, whose type assertions name the type and not its pointer
    unfoldable pub on_group_updated :
        GroupObject → GroupObject → Q.State → World D → Result Q.State × World D
    on_group_updated (group_value old) (group_value new) q w =
        if old.meta.resource_version == new.meta.resource_version
        then (ok q, w)
        else (do handle_unneeded_deployments old new; pure (Q.add_rate_limited (group_value new) q))
            w
    on_group_updated _ _ q w = (ok q, w)

    -- The last part of handleObject.
    unfoldable pub handle_owned : D.Cluster → ObjectMeta → Q.State → Result Q.State
    handle_owned c obj q = elim (D.meta.get_controller_of obj) [
      | none ↦ ok q
      | some owner_ref ↦
          if owner_ref.kind == "Foo"
          then elim (lister_get D c obj.namespace owner_ref.name) [
            | ok foo ↦ ok (Q.add (group_pointer foo) q)
            | err _ ↦ ok q
            | panic ↦ panic
          ]
          else ok q
    ]

    -- handleObject
    unfoldable pub handle_object : D.Cluster → AnyObject → Q.State → Result Q.State
    unfolding handle_owned
    handle_object c (object obj) q = handle_owned c obj q
    handle_object c (tombstone (some obj)) q = handle_owned c obj q
    handle_object c (tombstone none) q = ok q
    handle_object c invalid q = ok q

    -- UpdateFunc of the deployments and of the services
    unfoldable pub on_object_updated :
        D.Cluster → ObjectMeta → ObjectMeta → Q.State → Result Q.State
    on_object_updated c old new q =
        if new.resource_version == old.resource_version
        then ok q
        else handle_object c (object new) q
