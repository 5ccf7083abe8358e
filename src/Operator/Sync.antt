-- ===== src/Operator/Sync.antt =====
-- What syncComputeGroup of pkg/controllers/operator/operator_controller.go does with the deployment of a
-- set, on each of its branches.
use datafuse_operator.Prelude.{
  arith, String, ◌<>◌, Bool, false, some, [], ◌∷◌, ◌++◌, ◌≡◌, ◌⊎◌, ◌∙◌, refl, ap, subst, inl, inr,
  Bool-cases,
}
use datafuse_operator.Go.Int.{ℤ}
use datafuse_operator.Go.Result.{ok, err, errorf}
use datafuse_operator.Kube.Meta.{IsLawful}
use datafuse_operator.Constants
use datafuse_operator.Api.Types.{ComputeGroup, ComputeSetSpec}
use datafuse_operator.Utils.Deployments.{make_deployment, add_deploy_ownership}
use datafuse_operator.Utils.Ownership.{add_deploy_ownership_lem}
use datafuse_operator.Operator.Deps.{OperatorDeps, ADeployment, World, record_event}
use datafuse_operator.Operator.Makeable.{
  make_deployment-made, add_deploy_ownership_keeps, makes_service,
}
use datafuse_operator.Operator.Settle.{
  normal, warning, IsSyncApi, IsSettled, noted, serves, finds, scales,
}
use datafuse_operator.Operator.Sets.{get_compute_group_keys, sync_compute_group}

module _ (D : OperatorDeps) where
  abbrev foreign_message : ComputeGroup → ADeployment D → String
  foreign_message cg d =
      "deployment " <> d.meta.name <> " in " <> d.meta.namespace
      <> " existed but not controlled by group " <> cg.meta.name

  -- A sync that ends well, with the deployment of a namespace and a name settled and the event of its
  -- success.
  abbrev pub IsSynced :
      ComputeGroup → ComputeSetSpec → String → Bool → ℤ → World D → String → String → Type 0
  IsSynced cg set name is_leader wanted w ns n =
      (v : World D) × (sync_compute_group D cg set name is_leader w ≡ (ok tt, v))
      × IsSettled D cg ns n wanted v
      × (v.events
          ≡ w.events
            ++ record {
              kind = "Normal";
              reason = Constants.success_synced;
              message = Constants.message_resource_synced;
            }
              ∷ [])

  -- A sync that fails at a deployment of the cache that the group does not control, leaves it there as it
  -- is, and records a warning with the text of the error.
  abbrev pub IsForeign :
      ComputeGroup → ComputeSetSpec → String → Bool → World D → String → String → Type 0
  IsForeign cg set name is_leader w ns n =
      (d : ADeployment D) × (v : World D) × (D.get_deployment w.cluster ns n ≡ ok d)
      × (D.meta.is_controlled_by d.meta cg.meta ≡ false)
      × (sync_compute_group D cg set name is_leader w ≡ (err (errorf (foreign_message cg d)), v))
      × (D.get_deployment v.cluster ns n ≡ ok d)
      × (v.events
          ≡ w.events
            ++ record {
              kind = "Warning";
              reason = Constants.error_resource_exists;
              message = foreign_message cg d;
            }
              ∷ [])

  module _ (api : IsSyncApi D) (lawful : IsLawful D.meta) (cg : ComputeGroup) (set : ComputeSetSpec)
      (name op_key key : String) (is_leader : Bool) (made : ADeployment D) (wanted : ℤ)
      (keyed : get_compute_group_keys cg ≡ ok (op_key, key))
      (makes : make_deployment D.quantities set name cg.meta.namespace op_key key is_leader
        ≡ ok made)
      (wants : set.replicas ≡ some wanted) where
    abbrev deploy : ADeployment D
    deploy = add_deploy_ownership D.quantities D.meta made cg

    sync_lem :
        (w : World D)
        → IsSynced cg set name is_leader wanted w deploy.meta.namespace deploy.meta.name
          ⊎ IsForeign cg set name is_leader w deploy.meta.namespace deploy.meta.name
    unfolding sync_compute_group
    sync_lem w =
        let (_, made_placed, unowned, replicas) =
          make_deployment-made D set name cg.meta.namespace op_key key is_leader made makes in
        let (_, same_place, same_spec) = add_deploy_ownership_keeps D made cg in
        let sent : deploy.spec.replicas ≡ some wanted =
          ap (λ s. s.replicas) same_spec ∙ replicas ∙ wants in
        let owned = (add_deploy_ownership_lem D.meta lawful D.quantities made cg unowned).0 in
        let (s, served) = makes_service D cg set name op_key key is_leader made makes in
        let (d, r, u, find, got, has, quiet, whence) =
          finds D api cg is_leader deploy wanted sent owned w in
        let (t, serve, same, still) = serves D api cg is_leader deploy s u served in
        let got' : D.get_deployment t.cluster deploy.meta.namespace deploy.meta.name ≡ ok d =
          same deploy.meta.namespace deploy.meta.name ∙ got in
        elim (Bool-cases (D.meta.is_controlled_by d.meta cg.meta)) [
          | inl ours ↦
              let (d', x, scale, (d₀, got₀, ours₀, has₀), scale_still) =
                scales D api cg is_leader deploy wanted sent owned set d r t wants
                  (same_place ∙ made_placed) got' has ours in
              let (v, done, same_after, events) = noted D api cg is_leader d' x in
              let run : sync_compute_group D cg set name is_leader w ≡ (ok tt, v) =
                rw (keyed, makes) (rw find (rw serve (rw ours (rw scale done)))) in
              inl (
                v,
                run,
                (d₀, same_after deploy.meta.namespace deploy.meta.name ∙ got₀, ours₀, has₀),
                events ∙ ap (λ l. l ++ normal ∷ []) (scale_still ∙ still ∙ quiet),
              )
          | inr foreign ↦
              let message = foreign_message cg d in
              let v = (record_event D "Warning" Constants.error_resource_exists message t).1 in
              let run : sync_compute_group D cg set name is_leader w ≡ (err (errorf message), v) =
                rw (keyed, makes) (rw find (rw serve (rw foreign refl))) in
              let before : D.get_deployment w.cluster deploy.meta.namespace deploy.meta.name
                  ≡ ok d =
                elim whence [
                  | inl unchanged ↦
                      subst
                        (λ (x : World D).
                          D.get_deployment x.cluster deploy.meta.namespace deploy.meta.name ≡ ok d)
                        unchanged got
                  | inr ours ↦ absurd (ground (arith, foreign, ours))
                ] in
              inr (
                d,
                v,
                before,
                foreign,
                run,
                got',
                ap (λ l. l ++ warning message ∷ []) (still ∙ quiet),
              )
        ]

    -- Let the caches be up to date and the servers answer and keep what they are sent, the metadata
    -- functions be as documented, the group have its keys, the deployment of the set be makeable and the
    -- set ask for a number of replicas. For a leader and for a worker, and from any state, syncComputeGroup
    -- does one of two things. It ends well, and the cache has a deployment of the set's name, in the
    -- group's namespace, that the group controls and that has the replicas of the set, whether it was
    -- missing, had another number or was there; the one event more is of a success. Or the cache had a
    -- deployment of that name that the group does not control: it fails with an error that names it,
    -- leaves it as it is and records the one warning.
    pub sync_compute_group-IsSynced :
        (w : World D)
        → IsSynced cg set name is_leader wanted w cg.meta.namespace name
          ⊎ IsForeign cg set name is_leader w cg.meta.namespace name
    sync_compute_group-IsSynced w =
        let (named, placed, _, _) =
          make_deployment-made D set name cg.meta.namespace op_key key is_leader made makes in
        let (same_name, same_place, _) = add_deploy_ownership_keeps D made cg in
        subst
          (λ n.
            IsSynced cg set name is_leader wanted w cg.meta.namespace n
            ⊎ IsForeign cg set name is_leader w cg.meta.namespace n)
          (same_name ∙ named)
          (subst
            (λ ns.
              IsSynced cg set name is_leader wanted w ns deploy.meta.name
              ⊎ IsForeign cg set name is_leader w ns deploy.meta.name)
            (same_place ∙ placed) (sync_lem w))
