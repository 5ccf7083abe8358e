-- ===== src/Operator/Makeable.antt =====
-- The deployment and the service that can be made of a set whose instance says all that its pods need
-- (pkg/controllers/utils/operator_utils.go), for a compute group.
use datafuse_operator.Prelude.{String, none, sym, Bool, List, [], ◌∷◌, ◌≡◌, refl, ap, arith, ◌∙◌}
use datafuse_operator.Go.Result.{ok, ok-injective, bind-eq-ok}
use datafuse_operator.Kube.Objects.{Container, PodSpec, Service}
use datafuse_operator.Api.Types.{ComputeGroup, ComputeSetSpec}
use datafuse_operator.Utils.Pods.{convert_instance_spec_to_pod_spec}
use datafuse_operator.Utils.Deployments.{make_deployment, make_service, add_deploy_ownership}
use datafuse_operator.Utils.Selection.{make_service-make_deployment}
use datafuse_operator.Operator.Deps.{OperatorDeps, ADeployment}

module _ (D : OperatorDeps) where
  -- The instance says all that its pods need.
  abbrev pub IsMakeable : ComputeSetSpec → Type 0
  IsMakeable set =
      (spec : PodSpec D.quantities.Quantity) × (convert_instance_spec_to_pod_spec D.quantities
          set.instance_spec
        ≡ ok spec)

  -- The deployment that is made of a set for a group.
  pub deploy_of :
      (cg : ComputeGroup) (set : ComputeSetSpec) (name op_key key : String) (is_leader : Bool)
      → IsMakeable set
      → (made : ADeployment D) × (make_deployment D.quantities set name cg.meta.namespace op_key key
            is_leader
          ≡ ok made)
        × (made.meta.name ≡ name)
        × (made.meta.namespace ≡ cg.meta.namespace)
  unfolding make_deployment
  deploy_of cg set name op_key key is_leader (spec, e) = rw e (_, refl, refl, refl)

  -- A deployment that is made of a set has the name and the namespace that were asked for, no owner, and
  -- the replicas of the set.
  pub make_deployment-made :
      (set : ComputeSetSpec) (name namespace op_key key : String) (is_leader : Bool)
      (made : ADeployment D)
      → make_deployment D.quantities set name namespace op_key key is_leader ≡ ok made
      → (made.meta.name ≡ name)
        × (made.meta.namespace ≡ namespace)
        × (made.meta.owner_references ≡ none)
        × (made.spec.replicas ≡ set.replicas)
  unfolding make_deployment
  make_deployment-made set name namespace op_key key is_leader made e =
      let (spec, converted, made_of) =
        bind-eq-ok (convert_instance_spec_to_pod_spec D.quantities set.instance_spec) _ e in
      let same = sym (ok-injective made_of) in
      (
        ap (λ d. d.meta.name) same,
        ap (λ d. d.meta.namespace) same,
        ap (λ d. d.meta.owner_references) same,
        ap (λ d. d.spec.replicas) same,
      )

  -- AddDeployOwnership changes the owner references alone.
  pub add_deploy_ownership_keeps :
      (d : ADeployment D) (cg : ComputeGroup)
      → ((add_deploy_ownership D.quantities D.meta d cg).meta.name ≡ d.meta.name)
        × ((add_deploy_ownership D.quantities D.meta d cg).meta.namespace ≡ d.meta.namespace)
        × ((add_deploy_ownership D.quantities D.meta d cg).spec ≡ d.spec)
  unfolding add_deploy_ownership
  add_deploy_ownership_keeps d cg = ground arith

  make_service_of_container :
      (name : String) (d : ADeployment D) (c : Container D.quantities.Quantity)
      (cs : List (Container D.quantities.Quantity))
      → d.spec.template.spec.containers ≡ c ∷ cs
      → (s : Service) × (make_service D.quantities name d ≡ ok s)
  unfolding make_service
  make_service_of_container name d c cs e = rw e (_, refl)

  -- A service can be made for the deployment of a makeable set.
  pub makes_service :
      (cg : ComputeGroup) (set : ComputeSetSpec) (name op_key key : String) (is_leader : Bool)
      (made : ADeployment D)
      → make_deployment D.quantities set name cg.meta.namespace op_key key is_leader ≡ ok made
      → (s : Service) × (make_service D.quantities cg.meta.name
            (add_deploy_ownership D.quantities D.meta made cg)
          ≡ ok s)
  makes_service cg set name op_key key is_leader made e =
      let (_, c, _, _, _, _, _, containers, _) =
        make_service-make_deployment D.quantities set name cg.meta.namespace op_key key is_leader
          cg.meta.name made e in
      let (_, _, same) = add_deploy_ownership_keeps made cg in
      make_service_of_container cg.meta.name _ c []
        (ap (λ spec. spec.template.spec.containers) same ∙ containers)
