-- ===== src/Utils/Ownership.antt =====
-- Who controls the objects that are made.
use datafuse_operator.Prelude.{
  String, true, false, none, some, [], ◌∷◌, ◌≡◌, refl, arith, ap, ◌∙◌, eq_refl, ◌==◌, Bool-cases,
  Option-cases, inl, inr, sym,
}
use mathlib.Core.Bool.{false≢true}
use datafuse_operator.Kube.Objects.{ObjectMeta, Deployment}
use datafuse_operator.Kube.Meta.{MetaFuncs, IsLawful, Quantities}
use datafuse_operator.Api.Types.{Operator, ComputeGroup, scheme_group_version}
use datafuse_operator.Api.Defaults.{needs_owner, set_compute_group_defaults}
use datafuse_operator.Utils.Deployments.{add_deploy_ownership}

module _ (M : MetaFuncs) (lawful : IsLawful M) where
  -- An object whose only owner reference is one that NewControllerRef made is controlled by its owner.
  controlled_by_sole :
      (o owner : ObjectMeta) (api_version kind : String)
      → o.owner_references ≡ some (M.new_controller_ref owner api_version kind ∷ [])
      → M.is_controlled_by o owner ≡ true
  controlled_by_sole o owner api_version kind e =
      lawful.controlled_by o owner _ (lawful.sole_controller o owner api_version kind e)
      ∙ ap (λ u. u == owner.uid) (lawful.ref_uid owner api_version kind)
      ∙ eq_refl owner.uid

  -- Whether an object is controlled depends on its owner references alone.
  controlled_by_references :
      (o o' owner : ObjectMeta)
      → o.owner_references ≡ o'.owner_references
      → M.is_controlled_by o owner ≡ M.is_controlled_by o' owner
  controlled_by_references o o' owner e = elim (Option-cases (M.get_controller_of o)) [
    | inl nobody ↦
        lawful.not_controlled o owner nobody
        ∙ sym (lawful.not_controlled o' owner (sym (lawful.by_references o o' e) ∙ nobody))
    | inr (r, somebody) ↦
        lawful.controlled_by o owner r somebody
        ∙ sym (lawful.controlled_by o' owner r (sym (lawful.by_references o o' e) ∙ somebody))
  ]

  needs_owner_of_controlled :
      (group : ComputeGroup) (op : Operator)
      → M.is_controlled_by group.meta op.meta ≡ true
      → needs_owner M group op ≡ false
  unfolding needs_owner
  needs_owner_of_controlled group op h = elim (Option-cases group.meta.owner_references) [
    | inl nil ↦ absurd (
        false≢true (
          sym (lawful.not_controlled group.meta op.meta (lawful.nil_references group.meta nil))
          ∙ h))
    | inr (refs, e) ↦ rw (e, needs_owner) (rw h)
  ]

  controlled-set_compute_group_defaults :
      (op : Operator) (group : ComputeGroup)
      → M.is_controlled_by (set_compute_group_defaults M op group).meta op.meta ≡ true
  unfolding set_compute_group_defaults needs_owner
  controlled-set_compute_group_defaults op group = elim (Bool-cases (needs_owner M group op)) [
    | inl needed ↦
        controlled_by_sole _ op.meta scheme_group_version "DatafuseOperator"
          (ground (arith, needed))
    | inr kept ↦
        controlled_by_references _ group.meta op.meta (ground (arith, kept)) ∙ ground (arith, kept)
  ]

  set_compute_group_defaults_of_settled :
      (op : Operator) (group : ComputeGroup)
      → needs_owner M group op ≡ false
      → (group.meta.namespace == "") ≡ false
      → set_compute_group_defaults M op group ≡ group
  unfolding set_compute_group_defaults
  set_compute_group_defaults_of_settled op group kept named = ground (arith, kept, named)

  namespace-set_compute_group_defaults :
      (op : Operator) (group : ComputeGroup)
      → ((set_compute_group_defaults M op group).meta.namespace == "") ≡ false
  unfolding set_compute_group_defaults
  namespace-set_compute_group_defaults op group = elim (Bool-cases (group.meta.namespace == "")) [
    | inl unnamed ↦ rw unnamed refl
    | inr named ↦ rw named named
  ]

  -- With the metadata functions as documented, the defaults of a compute group leave it controlled
  -- by its operator, whoever it referred to before, and in a namespace that is not empty; setting
  -- them once more changes nothing.
  pub set_compute_group_defaults_lem :
      (op : Operator) (group : ComputeGroup)
      → (M.is_controlled_by (set_compute_group_defaults M op group).meta op.meta ≡ true)
        × (((set_compute_group_defaults M op group).meta.namespace == "") ≡ false)
        × (set_compute_group_defaults M op (set_compute_group_defaults M op group)
            ≡ set_compute_group_defaults M op group)
  set_compute_group_defaults_lem op group =
      let controlled = controlled-set_compute_group_defaults op group in
      let named = namespace-set_compute_group_defaults op group in
      (
        controlled,
        named,
        set_compute_group_defaults_of_settled op _ (needs_owner_of_controlled _ op controlled)
            named,
      )

  module _ (Q : Quantities) where
    -- With the metadata functions as documented, AddDeployOwnership makes a deployment without
    -- owner references one that the group controls, and a second call changes nothing.
    pub add_deploy_ownership_lem :
        (d : Deployment Q.Quantity) (owner : ComputeGroup)
        → d.meta.owner_references ≡ none
        → (M.is_controlled_by (add_deploy_ownership Q M d owner).meta owner.meta ≡ true)
          × (add_deploy_ownership Q M (add_deploy_ownership Q M d owner) owner
              ≡ add_deploy_ownership Q M d owner)
    unfolding add_deploy_ownership
    add_deploy_ownership_lem d owner fresh =
        let ref = M.new_controller_ref owner.meta scheme_group_version "DatafuseComputeGroup" in
        let bare : ObjectMeta = record d.meta { owner_references = some [] } in
        let owned : ObjectMeta = record d.meta { owner_references = some (ref ∷ []) } in
        let before : M.is_controlled_by bare owner.meta ≡ false =
          lawful.not_controlled bare owner.meta (lawful.no_references bare refl) in
        let after : M.is_controlled_by owned owner.meta ≡ true =
          controlled_by_sole owned owner.meta scheme_group_version "DatafuseComputeGroup" refl in
        ground (arith, fresh, before, after)
