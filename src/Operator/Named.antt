-- ===== src/Operator/Named.antt =====
-- The names of the deployments that syncComputeGroup finds, creates and scales
-- (pkg/controllers/operator/operator_controller.go), beside an API server that keeps the status of a
-- compute group.
use datafuse_operator.Prelude.{
  String, Bool, true, false, ◌≡◌, ◌⊎◌, Bool-cases, inl, inr, ◌∙◌, refl, subst, if◌then◌else◌, arith,
}
use datafuse_operator.Go.Result.{Result, ok, err, panic, ok-injective}
use datafuse_operator.Go.Exec.{pure, continue}
use datafuse_operator.Kube.Objects.{Service}
use datafuse_operator.Api.Types.{ComputeGroup, ComputeSetSpec, ComputeGroupStatus}
use datafuse_operator.Utils.Deployments.{make_deployment, add_deploy_ownership}
use datafuse_operator.Operator.Makeable.{make_deployment-made, add_deploy_ownership_keeps}
use datafuse_operator.Operator.Noted.{IsAt}
use datafuse_operator.Operator.Deps.{OperatorDeps, ADeployment, World, call}
use datafuse_operator.Operator.Sets.{replicas_differ, find_or_create_deployment, scale_deployment}

module _ (D : OperatorDeps) where
  -- What the API server keeps as the status of a compute group: an update of a group stores its
  -- status or changes nothing, and the calls for deployments and services leave it. A deployment that
  -- the cache or the server gives has the namespace and the name that it was asked for or sent with.
  pub record IsStatusStore (stored : D.Cluster → ComputeGroupStatus) : Type 0 where
    pub updates :
        (ns : String) (g : ComputeGroup) (c : D.Cluster)
        → (stored (D.update_group ns g c).1 ≡ g.status)
          ⊎ (stored (D.update_group ns g c).1 ≡ stored c)
    pub create_deployment :
        (ns : String) (d : ADeployment D) (c : D.Cluster)
        → stored (D.create_deployment ns d c).1 ≡ stored c
    pub update_deployment :
        (ns : String) (d : ADeployment D) (c : D.Cluster)
        → stored (D.update_deployment ns d c).1 ≡ stored c
    pub create_service :
        (ns : String) (s : Service) (c : D.Cluster) → stored (D.create_service ns s c).1 ≡ stored c
    pub gets :
        (ns n : String) (c : D.Cluster) (d : ADeployment D)
        → D.get_deployment c ns n ≡ ok d
        → IsAt D ns n d
    pub creates :
        (ns : String) (d d' : ADeployment D) (c : D.Cluster)
        → (D.create_deployment ns d c).0 ≡ ok d'
        → IsAt D d.meta.namespace d.meta.name d'
    pub scales :
        (ns : String) (d d' : ADeployment D) (c : D.Cluster)
        → (D.update_deployment ns d c).0 ≡ ok d'
        → IsAt D d.meta.namespace d.meta.name d'

  module _ (stored : D.Cluster → ComputeGroupStatus) (store : IsStatusStore stored)
      (cg : ComputeGroup) where
    pub find_or_create_deployment-IsAt :
        (deploy : ADeployment D) (w : World D) (d : ADeployment D)
        → (find_or_create_deployment D deploy w).0 ≡ ok d
        → IsAt D deploy.meta.namespace deploy.meta.name d
    unfolding find_or_create_deployment
    find_or_create_deployment-IsAt deploy w d =
        go (D.get_deployment w.cluster deploy.meta.namespace deploy.meta.name) refl
      where
        go :
            (r : Result (ADeployment D))
            → D.get_deployment w.cluster deploy.meta.namespace deploy.meta.name ≡ r
            → (elim r as (λ _. Result (ADeployment D) × World D) [
              | ok d ↦ (ok d, w)
              | panic ↦ (panic, w)
              | err e ↦
                  if D.meta.is_not_found e
                  then call D (D.create_deployment deploy.meta.namespace deploy) w
                  else (err e, w)
            ]).0
              ≡ ok d
            → IsAt D deploy.meta.namespace deploy.meta.name d
        go (ok x) e run = store.gets deploy.meta.namespace deploy.meta.name w.cluster d (e ∙ run)
        go panic _ run = cc
        go (err x) _ run =
            let sends : (D.create_deployment deploy.meta.namespace deploy w.cluster).0 ≡ ok d =
              elim (Bool-cases (D.meta.is_not_found x)) [
                | inl missing ↦ ground (arith, missing, run)
                | inr other ↦ absurd (ground (arith, other, run))
              ] in
            store.creates deploy.meta.namespace deploy d w.cluster sends

    pub scale_deployment-IsAt :
        (set : ComputeSetSpec) (deploy d : ADeployment D) (ns n : String)
        → IsAt D ns n deploy
        → IsAt D ns n d
        → (w : World D) (d' : ADeployment D) → (scale_deployment D cg set deploy d w).0 ≡ ok d'
        → IsAt D ns n d'
    unfolding scale_deployment
    scale_deployment-IsAt set deploy d ns n (placed, named) at w d' =
        go (replicas_differ D set.replicas d.spec.replicas)
      where
        go :
            (r : Result Bool)
            → (continue r
                (λ differ.
                  if differ then call D (D.update_deployment cg.meta.namespace deploy) else pure d)
                w).0
              ≡ ok d'
            → IsAt D ns n d'
        go (ok true) run =
            let (placed', named') = store.scales cg.meta.namespace deploy d' w.cluster run in
            (placed' ∙ placed, named' ∙ named)
        go (ok false) run = subst (IsAt D ns n) (ok-injective run) at
        go (err _) run = cc
        go panic run = cc

    -- The deployment that is made of a set, with its owner, has the name of the set.
    pub deploy-IsAt :
        (set : ComputeSetSpec) (name op_key key : String) (is_leader : Bool) (made : ADeployment D)
        → make_deployment D.quantities set name cg.meta.namespace op_key key is_leader ≡ ok made
        → IsAt D cg.meta.namespace name (add_deploy_ownership D.quantities D.meta made cg)
    deploy-IsAt set name op_key key is_leader made e =
        let (named, placed, _, _) =
          make_deployment-made D set name cg.meta.namespace op_key key is_leader made e in
        let (same_name, same_place, _) = add_deploy_ownership_keeps D made cg in
        (same_place ∙ placed, same_name ∙ named)
