-- ===== src/Operator/Kept.antt =====
-- What the calls of syncComputeGroup (pkg/controllers/operator/operator_controller.go) keep: no panic,
-- and a property of the cluster that the calls of the API server keep.
use datafuse_operator.Prelude.{
  String, Bool, true, false, some, ◌≡◌, Bool-cases, Option-cases, inl, inr, if◌then◌else◌,
}
use datafuse_operator.Go.Int.{ℤ, int_eq}
use datafuse_operator.Go.Result.{Result, ok, err, panic}
use datafuse_operator.Go.Exec.{pure, ◌>>◌}
use datafuse_operator.Go.Holds.{Gives, Holds, Any, Holds-bind}
use datafuse_operator.Kube.Objects.{Service}
use datafuse_operator.Api.Types.{ComputeGroup, ComputeSetSpec}
use datafuse_operator.Utils.Deployments.{make_deployment, make_service, add_deploy_ownership}
use datafuse_operator.Operator.Deps.{OperatorDeps, ADeployment, World, call}
use datafuse_operator.Operator.Sets.{
  get_compute_group_keys, update_compute_group_status, find_or_create_deployment, ensure_service,
  replicas_differ, scale_deployment, sync_compute_group,
}
use datafuse_operator.Operator.Makeable.{makes_service}

module _ (D : OperatorDeps) where
  -- The API server gives a deployment a number of replicas, when the client gave none.
  abbrev pub HasReplicas : ADeployment D → Type 0
  HasReplicas d = (r : ℤ) × (d.spec.replicas ≡ some r)

  -- The caches and the API server answer, and a property of the cluster outlives each call.
  pub record IsKept (P : D.Cluster → Type 0) : Type 0 where
    pub gets_deployment :
        (c : D.Cluster) (ns n : String) → P c → Gives HasReplicas (D.get_deployment c ns n)
    pub gets_service : (c : D.Cluster) (ns n : String) → P c → Gives Any (D.get_service c ns n)
    pub creates_deployment :
        (ns : String) (d : ADeployment D) (c : D.Cluster)
        → P c
        → Holds P HasReplicas (D.create_deployment ns d c)
    pub updates_deployment :
        (ns : String) (d : ADeployment D) (c : D.Cluster)
        → P c
        → Holds P Any (D.update_deployment ns d c)
    pub creates_service :
        (ns : String) (s : Service) (c : D.Cluster) → P c → Holds P Any (D.create_service ns s c)
    pub updates_group :
        (ns : String) (g : ComputeGroup) (c : D.Cluster) → P c → Holds P Any (D.update_group ns g c)

  module _ (P : D.Cluster → Type 0) (kept : IsKept P) where
    -- The property, of a world.
    abbrev pub Here : World D → Type 0
    Here w = P w.cluster

    find_or_create_deployment-Holds :
        (deploy : ADeployment D) (w : World D)
        → Here w
        → Holds Here HasReplicas (find_or_create_deployment D deploy w)
    unfolding find_or_create_deployment
    find_or_create_deployment-Holds deploy w h =
        go (D.get_deployment w.cluster deploy.meta.namespace deploy.meta.name)
          (kept.gets_deployment w.cluster deploy.meta.namespace deploy.meta.name h)
      where
        go :
            (r : Result (ADeployment D))
            → Gives HasReplicas r
            → Holds Here HasReplicas (elim r [
              | ok d ↦ (ok d, w)
              | panic ↦ (panic, w)
              | err e ↦
                  if D.meta.is_not_found e
                  then call D (D.create_deployment deploy.meta.namespace deploy) w
                  else (err e, w)
            ])
        go (ok d) given = (given, h)
        go panic given = elim given [ ]
        go (err e) _ = elim (Bool-cases (D.meta.is_not_found e)) [
          | inl missing ↦
              rw missing (kept.creates_deployment deploy.meta.namespace deploy w.cluster h)
          | inr other ↦ rw other (tt, h)
        ]

    ensure_service-Holds :
        (is_leader : Bool) (name : String) (deploy : ADeployment D) (s : Service) (w : World D)
        → make_service D.quantities name deploy ≡ ok s
        → Here w
        → Holds Here Any (ensure_service D is_leader name deploy w)
    unfolding ensure_service
    ensure_service-Holds false name deploy s w makes h = (tt, h)
    ensure_service-Holds true name deploy s w makes h = rw makes (
        go (D.get_service w.cluster s.meta.namespace s.meta.name)
          (kept.gets_service w.cluster s.meta.namespace s.meta.name h))
      where
        go :
            (r : Result Service)
            → Gives Any r
            → Holds Here (Any {A = Unit {0}}) (elim r [
              | ok _ ↦ (ok tt, w)
              | panic ↦ (panic, w)
              | err e ↦
                  if D.meta.is_not_found e
                  then (do call D (D.create_service s.meta.namespace s); pure tt) w
                  else (err e, w)
            ])
        go (ok _) _ = (tt, h)
        go panic given = elim given [ ]
        go (err e) _ = elim (Bool-cases (D.meta.is_not_found e)) [
          | inl missing ↦ rw missing (
              Holds-bind Here Any Any (call D (D.create_service s.meta.namespace s)) _ w
                (kept.creates_service s.meta.namespace s w.cluster h) (λ _ t _ k. (tt, k)))
          | inr other ↦ rw other (tt, h)
        ]

    scale_deployment-Holds :
        (cg : ComputeGroup) (set : ComputeSetSpec) (deploy d : ADeployment D) (w : World D)
        → HasReplicas d
        → Here w
        → Holds Here Any (scale_deployment D cg set deploy d w)
    unfolding scale_deployment replicas_differ
    scale_deployment-Holds cg set deploy d w (r, has) h = elim (Option-cases set.replicas) [
      | inl e ↦ rw e (tt, h)
      | inr (wanted, e) ↦
          rw (e, has)
            (elim (Bool-cases (int_eq wanted r)) [
              | inl same ↦ rw same (tt, h)
              | inr differ ↦
                  rw differ (kept.updates_deployment cg.meta.namespace deploy w.cluster h)
            ])
    ]

    -- The part of a sync behind its deployment.
    update_compute_group_status-Holds :
        (cg : ComputeGroup) (d : ADeployment D) (is_leader : Bool) (w : World D)
        → Here w
        → Holds Here Any (update_compute_group_status D cg d is_leader w)
    unfolding update_compute_group_status
    update_compute_group_status-Holds cg d is_leader w h =
        kept.updates_group cg.meta.namespace _ w.cluster h

    -- A sync whose deployment is found or created with the property ends with it.
    pub sync_compute_group-Holds_of_found :
        (cg : ComputeGroup) (set : ComputeSetSpec) (name op_key key : String) (is_leader : Bool)
        (made : ADeployment D) (w : World D)
        → get_compute_group_keys cg ≡ ok (op_key, key)
        → make_deployment D.quantities set name cg.meta.namespace op_key key is_leader ≡ ok made
        → Holds Here HasReplicas
            (find_or_create_deployment D (add_deploy_ownership D.quantities D.meta made cg) w)
        → Holds Here Any (sync_compute_group D cg set name is_leader w)
    unfolding sync_compute_group
    sync_compute_group-Holds_of_found cg set name op_key key is_leader made w keyed makes found =
        let deploy = add_deploy_ownership D.quantities D.meta made cg in
        let (s, serves) = makes_service D cg set name op_key key is_leader made makes in
        rw (keyed, makes)
          (Holds-bind Here HasReplicas Any (find_or_create_deployment D deploy) _ w found
            (λ d t has h.
              Holds-bind Here Any Any (ensure_service D is_leader cg.meta.name deploy) _ t
                (ensure_service-Holds is_leader cg.meta.name deploy s t serves h)
                (λ _ u _ h'. elim (Bool-cases (D.meta.is_controlled_by d.meta cg.meta)) [
                  | inr foreign ↦ rw foreign (tt, h')
                  | inl ours ↦ rw ours (
                      Holds-bind Here Any Any (scale_deployment D cg set deploy d) _ u
                        (scale_deployment-Holds cg set deploy d u has h')
                        (λ d' v _ h₁.
                          Holds-bind Here Any Any (update_compute_group_status D cg d' is_leader) _
                            v (update_compute_group_status-Holds cg d' is_leader v h₁)
                            (λ _ x _ h₂. (tt, h₂))))
                ])))
