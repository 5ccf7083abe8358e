-- ===== src/Operator/Settle.antt =====
-- The deployment of a set behind the statements of syncComputeGroup
-- (pkg/controllers/operator/operator_controller.go), when the caches are up to date and the servers answer.
use datafuse_operator.Prelude.{
  String, Bool, true, false, some, [], ◌∷◌, ◌++◌, ◌≡◌, ◌⊎◌, ◌∙◌, refl, sym, ap, subst, inl, inr,
  Bool-cases,
}
use datafuse_operator.Go.Int.{ℤ, int_eq, int_eq_iff}
use datafuse_operator.Go.Result.{GoError, ok, err}
use datafuse_operator.Go.Exec.{◌>>◌}
use datafuse_operator.Kube.Objects.{ObjectMeta}
use datafuse_operator.Kube.Objects.{Service}
use datafuse_operator.Constants
use datafuse_operator.Api.Types.{ComputeGroup, ComputeSetSpec}
use datafuse_operator.Utils.Deployments.{make_service}
use datafuse_operator.Operator.Deps.{OperatorDeps, ADeployment, World, Event, record_event}
use datafuse_operator.Operator.Sets.{
  ready_group, update_compute_group_status, find_or_create_deployment, ensure_service,
  replicas_differ, scale_deployment,
}

-- The events of a sync: that it ended well, or that a deployment is foreign.
abbrev pub normal : Event
normal = record {
  kind = "Normal";
  reason = Constants.success_synced;
  message = Constants.message_resource_synced;
}

abbrev pub warning : String → Event
warning message = record {
  kind = "Warning";
  reason = Constants.error_resource_exists;
  message = message;
}

module _ (D : OperatorDeps) where
  -- What the API server answers to a deployment that is sent keeps its replicas, if it has a number, and
  -- its owner.
  abbrev pub IsAnswer : ADeployment D → ADeployment D → Type 0
  IsAnswer d d' =
      ((r : ℤ) → d.spec.replicas ≡ some r → d'.spec.replicas ≡ some r)
      × ((m : ObjectMeta) → D.meta.is_controlled_by d'.meta m ≡ D.meta.is_controlled_by d.meta m)

  -- The caches are up to date and the servers answer: a deployment in the cache has a number of replicas;
  -- one that is created or updated is in the cache as it was answered; the other calls leave deployments.
  pub record IsSyncApi : Type 0 where
    pub caches :
        (c : D.Cluster) (ns n : String)
        → ((d : ADeployment D) × (r : ℤ) × (D.get_deployment c ns n ≡ ok d)
            × (d.spec.replicas ≡ some r))
          ⊎ ((e : GoError) × (D.get_deployment c ns n ≡ err e) × (D.meta.is_not_found e ≡ true))
    pub services :
        (c : D.Cluster) (ns n : String)
        → ((s : Service) × (D.get_service c ns n ≡ ok s))
          ⊎ ((e : GoError) × (D.get_service c ns n ≡ err e) × (D.meta.is_not_found e ≡ true))
    pub creates :
        (d : ADeployment D) (c : D.Cluster)
        → (d' : ADeployment D) × (c' : D.Cluster) × (D.create_deployment d.meta.namespace d c
            ≡ (ok d', c'))
          × IsAnswer d d'
          × (D.get_deployment c' d.meta.namespace d.meta.name ≡ ok d')
    pub updates :
        (d : ADeployment D) (c : D.Cluster)
        → (d' : ADeployment D) × (c' : D.Cluster) × (D.update_deployment d.meta.namespace d c
            ≡ (ok d', c'))
          × IsAnswer d d'
          × (D.get_deployment c' d.meta.namespace d.meta.name ≡ ok d')
    pub creates_service :
        (ns : String) (s : Service) (c : D.Cluster)
        → (s' : Service) × (c' : D.Cluster) × (D.create_service ns s c ≡ (ok s', c'))
          × ((ns' n : String) → D.get_deployment c' ns' n ≡ D.get_deployment c ns' n)
    pub updates_group :
        (ns : String) (g : ComputeGroup) (c : D.Cluster)
        → (c' : D.Cluster) × (D.update_group ns g c ≡ (ok tt, c'))
          × ((ns' n : String) → D.get_deployment c' ns' n ≡ D.get_deployment c ns' n)

  -- The same deployments in the cache
  abbrev IsSame : World D → World D → Type 0
  IsSame w v = (ns n : String) → D.get_deployment v.cluster ns n ≡ D.get_deployment w.cluster ns n

  -- The cache has a deployment that a group controls and that has so many replicas.
  abbrev pub IsSettled : ComputeGroup → String → String → ℤ → World D → Type 0
  IsSettled cg ns n wanted v =
      (d : ADeployment D) × (D.get_deployment v.cluster ns n ≡ ok d)
      × (D.meta.is_controlled_by d.meta cg.meta ≡ true)
      × (d.spec.replicas ≡ some wanted)

  module _ (api : IsSyncApi) (cg : ComputeGroup) (is_leader : Bool) where
    pub noted :
        (d : ADeployment D) (w : World D)
        → (v : World D) × ((update_compute_group_status D cg d is_leader
                >> record_event D "Normal" Constants.success_synced
                    Constants.message_resource_synced)
              w
            ≡ (ok tt, v))
          × IsSame w v
          × (v.events
              ≡ w.events
                ++ record {
                  kind = "Normal";
                  reason = Constants.success_synced;
                  message = Constants.message_resource_synced;
                }
                  ∷ [])
    unfolding update_compute_group_status
    noted d w =
        let (c, run, same) =
          api.updates_group cg.meta.namespace (ready_group D cg d is_leader) w.cluster in
        rw run (_, refl, same, refl)

    -- The service of a leader is found or created, and nothing else happens.
    pub serves :
        (deploy : ADeployment D) (s : Service) (w : World D)
        → make_service D.quantities cg.meta.name deploy ≡ ok s
        → (v : World D) × (ensure_service D is_leader cg.meta.name deploy w ≡ (ok tt, v))
          × IsSame w v
          × (v.events ≡ w.events)
    unfolding ensure_service
    serves deploy s w makes = go is_leader
      where
        go :
            (is_leader : Bool)
            → (v : World D) × (ensure_service D is_leader cg.meta.name deploy w ≡ (ok tt, v))
              × IsSame w v
              × (v.events ≡ w.events)
        go false = (w, refl, λ ns n. refl, refl)
        go true = elim (api.services w.cluster s.meta.namespace s.meta.name) [
          | inl (_, got) ↦ rw makes (rw got (w, refl, λ ns n. refl, refl))
          | inr (e, got, missing) ↦
              let (_, c, run, same) = api.creates_service s.meta.namespace s w.cluster in
              rw makes (rw got (rw missing (rw run (_, refl, same, refl))))
        ]

    module _ (deploy : ADeployment D) (wanted : ℤ) (sent : deploy.spec.replicas ≡ some wanted)
        (owned : D.meta.is_controlled_by deploy.meta cg.meta ≡ true) where
      -- What is found or created: a deployment of the cache before, or one that the group controls.
      pub finds :
          (w : World D)
          → (d : ADeployment D) × (r : ℤ) × (v : World D) × (find_or_create_deployment D deploy w
              ≡ (ok d, v))
            × (D.get_deployment v.cluster deploy.meta.namespace deploy.meta.name ≡ ok d)
            × (d.spec.replicas ≡ some r)
            × (v.events ≡ w.events)
            × ((v ≡ w) ⊎ (D.meta.is_controlled_by d.meta cg.meta ≡ true))
      unfolding find_or_create_deployment
      finds w = elim (api.caches w.cluster deploy.meta.namespace deploy.meta.name) [
        | inl (d, r, got, has) ↦
            (d, r, w, rw (got, find_or_create_deployment) refl, got, has, refl, inl refl)
        | inr (e, got, missing) ↦
            let (d, c, run, (kept, keeps), there) = api.creates deploy w.cluster in
            (
              d,
              wanted,
              record w { cluster = c },
              rw (got, find_or_create_deployment) (rw missing (rw run refl)),
              there,
              kept wanted sent,
              refl,
              inr (keeps cg.meta ∙ owned),
            )
      ]

      -- A deployment that the group controls is scaled, where it has another number of replicas.
      pub scales :
          (set : ComputeSetSpec) (d : ADeployment D) (r : ℤ) (w : World D)
          → set.replicas ≡ some wanted
          → deploy.meta.namespace ≡ cg.meta.namespace
          → D.get_deployment w.cluster deploy.meta.namespace deploy.meta.name ≡ ok d
          → d.spec.replicas ≡ some r
          → D.meta.is_controlled_by d.meta cg.meta ≡ true
          → (d' : ADeployment D) × (v : World D) × (scale_deployment D cg set deploy d w
              ≡ (ok d', v))
            × IsSettled cg deploy.meta.namespace deploy.meta.name wanted v
            × (v.events ≡ w.events)
      unfolding scale_deployment replicas_differ
      scales set d r w wants placed got has ours = elim (Bool-cases (int_eq wanted r)) [
        | inl same ↦
            let equal : r ≡ wanted = sym ((int_eq_iff wanted r).0 same) in
            let run : scale_deployment D cg set deploy d w ≡ (ok d, w) =
              simp (wants, has, same, scale_deployment) refl in
            (d, w, run, (d, got, ours, has ∙ ap some equal), refl)
        | inr differ ↦
            let (d', c, run, (kept, keeps), there) = api.updates deploy w.cluster in
            let run' : D.update_deployment cg.meta.namespace deploy w.cluster ≡ (ok d', c) =
              subst (λ ns. D.update_deployment ns deploy w.cluster ≡ (ok d', c)) placed run in
            let scale : scale_deployment D cg set deploy d w ≡ (ok d', record w { cluster = c }) =
              simp (wants, has, differ, run', scale_deployment) refl in
            (
              d',
              record w { cluster = c },
              scale,
              (d', there, keeps cg.meta ∙ owned, kept wanted sent),
              refl,
            )
      ]
