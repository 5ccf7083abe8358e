-- ===== src/Operator/Ownership.antt =====
-- What handleObject of pkg/controllers/operator/operator_controller.go does with the objects that the
-- controller owns.
use datafuse_operator.Prelude.{[], ◌∷◌, none, some, ◌==◌, ◌≡◌, refl, false}
use datafuse_operator.Go.Result.{ok}
use datafuse_operator.Kube.Objects.{ObjectMeta, OwnerReference}
use datafuse_operator.Kube.Meta.{IsLawful}
use datafuse_operator.Kube.Queue.{WorkQueue}
use datafuse_operator.Api.Types.{ComputeGroup}
use datafuse_operator.Api.Types.{scheme_group_version}
use datafuse_operator.Utils.Deployments.{add_deploy_ownership}
use datafuse_operator.Operator.Deps.{OperatorDeps, ADeployment}
use datafuse_operator.Operator.Events.{GroupObject, handle_owned, handle_object, object, tombstone}

module _ (D : OperatorDeps) (lawful : IsLawful D.meta) (Q : WorkQueue GroupObject) where
  handle_owned-other_kind :
      (c : D.Cluster) (obj : ObjectMeta) (ref : OwnerReference) (q : Q.State)
      → D.meta.get_controller_of obj ≡ some ref
      → (ref.kind == "Foo") ≡ false
      → handle_owned D Q c obj q ≡ ok q
  unfolding handle_owned
  handle_owned-other_kind c obj ref q owner other = rw (owner, handle_owned) (rw other refl)

  -- With the metadata functions as documented, a deployment without owner references that
  -- AddDeployOwnership gave to a compute group puts no group on the queue when handleObject gets
  -- it, as it is or in a tombstone.
  pub handle_object-add_deploy_ownership :
      (c : D.Cluster) (d : ADeployment D) (group : ComputeGroup) (q : Q.State)
      → d.meta.owner_references ≡ none
      → (handle_object D Q c (object (add_deploy_ownership D.quantities D.meta d group).meta) q
          ≡ ok q)
        × (handle_object D Q c
              (tombstone (some (add_deploy_ownership D.quantities D.meta d group).meta))
              q
            ≡ ok q)
  unfolding handle_object add_deploy_ownership handle_owned
  handle_object-add_deploy_ownership c d group q fresh =
      let ref = D.meta.new_controller_ref group.meta scheme_group_version "DatafuseComputeGroup" in
      let bare : ObjectMeta = record d.meta { owner_references = some [] } in
      let owned : ObjectMeta = record d.meta { owner_references = some (ref ∷ []) } in
      let before : D.meta.is_controlled_by bare group.meta ≡ false =
        lawful.not_controlled bare group.meta (lawful.no_references bare refl) in
      let owner : D.meta.get_controller_of owned ≡ some ref =
        lawful.sole_controller owned group.meta scheme_group_version "DatafuseComputeGroup" refl in
      let other : (ref.kind == "Foo") ≡ false =
        rw (lawful.ref_kind group.meta scheme_group_version "DatafuseComputeGroup") refl in
      let ignored = handle_owned-other_kind c owned ref q owner other in
      rw (fresh, before) (ignored, ignored)
