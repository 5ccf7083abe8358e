-- ===== src/Operator/Complete.antt =====
-- The deployments behind processNewComputeGroup of pkg/controllers/operator/operator_controller.go,
-- by the names that handleUnneededDeployments gives to the sets of a group.
use datafuse_operator.Prelude.{
  ℕ, ◌+◌, String, ◌<>◌, Bool, true, false, Option, none, some, is_some, List, [], ◌∷◌, ◌==◌, eq_iff,
  ◌≡◌, refl, arith, Bool-cases, Option-cases, inl, inr, if◌then◌else◌, subst, All, ◌∙◌,
}
use datafuse_operator.Go.Int.{pos}
use datafuse_operator.Go.Text.{show_int}
use datafuse_operator.Go.Map.{Entries, lookup, insert, lookup-insert}
use datafuse_operator.Go.Result.{Result, GoError, ok, err, panic, ok-injective}
use datafuse_operator.Go.Holds.{Gives, Holds, Any, Completes, Completes-attempt}
use datafuse_operator.Kube.Objects.{Service}
use datafuse_operator.Api.Types.{ComputeGroup, ComputeSetSpec}
use datafuse_operator.Api.Copies.{Behind}
use datafuse_operator.Utils.Deployments.{add_deploy_ownership}
use datafuse_operator.Operator.Deps.{OperatorDeps, ADeployment, World, call, items}
use datafuse_operator.Operator.Sets.{
  get_compute_group_keys, fill_name, find_or_create_deployment, sync_compute_group, sync_workers,
  process_new_compute_group,
}
use datafuse_operator.Operator.Events.{named_workers, build_named_spec}
use datafuse_operator.Operator.Makeable.{IsMakeable, deploy_of, add_deploy_ownership_keeps}
use datafuse_operator.Operator.Kept.{HasReplicas, IsKept, sync_compute_group-Holds_of_found}

module _ (D : OperatorDeps) where
  -- The cache has a deployment of a namespace and a name.
  abbrev pub Has : D.Cluster → String → String → Type 0
  Has c ns n = (d : ADeployment D) × (D.get_deployment c ns n ≡ ok d)

  -- The caches are up to date, the servers answer, a deployment that is created is there, and no call
  -- of a sync makes a deployment vanish.
  pub record IsDeploymentApi : Type 0 where
    pub answers : IsKept D Any
    pub missing :
        (c : D.Cluster) (ns n : String) (e : GoError)
        → D.get_deployment c ns n ≡ err e
        → D.meta.is_not_found e ≡ true
    pub appears :
        (c : D.Cluster) (d : ADeployment D)
        → Has (D.create_deployment d.meta.namespace d c).1 d.meta.namespace d.meta.name
    pub outlives_create :
        (ns' : String) (d : ADeployment D) (c : D.Cluster) (ns n : String)
        → Has c ns n
        → Has (D.create_deployment ns' d c).1 ns n
    pub outlives_update :
        (ns' : String) (d : ADeployment D) (c : D.Cluster) (ns n : String)
        → Has c ns n
        → Has (D.update_deployment ns' d c).1 ns n
    pub outlives_service :
        (ns' : String) (s : Service) (c : D.Cluster) (ns n : String)
        → Has c ns n
        → Has (D.create_service ns' s c).1 ns n
    pub outlives_group :
        (ns' : String) (g : ComputeGroup) (c : D.Cluster) (ns n : String)
        → Has c ns n
        → Has (D.update_group ns' g c).1 ns n

  -- Every name of a map has its deployment in a namespace.
  abbrev pub Covers : String → Entries ComputeSetSpec → D.Cluster → Type 0
  Covers ns names c = (k : String) → is_some (lookup k names) ≡ true → Has c ns k

  module _ (api : IsDeploymentApi) where
    -- Names that have their deployments keep them.
    Covers-IsKept : (ns : String) (names : Entries ComputeSetSpec) → IsKept D (Covers ns names)
    Covers-IsKept ns names = record {
      gets_deployment = λ c ns' n _. api.answers.gets_deployment c ns' n tt;
      gets_service = λ c ns' n _. api.answers.gets_service c ns' n tt;
      creates_deployment = λ ns' d c h. (
        (api.answers.creates_deployment ns' d c tt).0,
        λ k e. api.outlives_create ns' d c ns k (h k e),
      );
      updates_deployment = λ ns' d c h. (
        (api.answers.updates_deployment ns' d c tt).0,
        λ k e. api.outlives_update ns' d c ns k (h k e),
      );
      creates_service = λ ns' s c h. (
        (api.answers.creates_service ns' s c tt).0,
        λ k e. api.outlives_service ns' s c ns k (h k e),
      );
      updates_group = λ ns' g c h. (
        (api.answers.updates_group ns' g c tt).0,
        λ k e. api.outlives_group ns' g c ns k (h k e),
      );
    }

    Covers-insert :
        (ns n : String) (set : ComputeSetSpec) (names : Entries ComputeSetSpec) (c : D.Cluster)
        → Has c ns n
        → Covers ns names c
        → Covers ns (insert n set names) c
    Covers-insert ns n set names c has h k e = elim (Bool-cases (n == k)) [
      | inl same ↦ subst (Has c ns) (ground (arith, same, eq_iff n k)) has
      | inr differ ↦ h k (ground (arith, differ, e, lookup-insert n k set names))
    ]

    -- What is found or created is there, and the other names keep their deployments.
    find_or_create_deployment-Has :
        (deploy : ADeployment D) (ns : String) (names : Entries ComputeSetSpec) (w : World D)
        → Covers ns names w.cluster
        → Holds
            (λ (v : World D).
              Has v.cluster deploy.meta.namespace deploy.meta.name × Covers ns names v.cluster)
            (HasReplicas D)
            (find_or_create_deployment D deploy w)
    unfolding find_or_create_deployment
    find_or_create_deployment-Has deploy ns names w h =
        go (D.get_deployment w.cluster deploy.meta.namespace deploy.meta.name) refl
          (api.answers.gets_deployment w.cluster deploy.meta.namespace deploy.meta.name tt)
      where
        go :
            (r : Result (ADeployment D))
            → D.get_deployment w.cluster deploy.meta.namespace deploy.meta.name ≡ r
            → Gives (HasReplicas D) r
            → Holds
                (λ (v : World D).
                  Has v.cluster deploy.meta.namespace deploy.meta.name × Covers ns names v.cluster)
                (HasReplicas D)
                (elim r [
                  | ok d ↦ (ok d, w)
                  | panic ↦ (panic, w)
                  | err e ↦
                      if D.meta.is_not_found e
                      then call D (D.create_deployment deploy.meta.namespace deploy) w
                      else (err e, w)
                ])
        go (ok d) e given = (given, ((d, e), h))
        go panic e given = elim given [ ]
        go (err x) e _ =
            let (gives, covered) =
              (Covers-IsKept ns names).creates_deployment deploy.meta.namespace deploy w.cluster
                h in
            rw (api.missing w.cluster _ _ x e) (gives, (api.appears w.cluster deploy, covered))

    abbrev pub Covered : String → Entries ComputeSetSpec → World D → Type 0
    Covered ns names w = Covers ns names w.cluster

    -- A sync adds its name to those that have their deployments.
    sync_compute_group-Covers :
        (cg : ComputeGroup) (set : ComputeSetSpec) (name op_key key : String) (is_leader : Bool)
        (names : Entries ComputeSetSpec) (w : World D)
        → get_compute_group_keys cg ≡ ok (op_key, key)
        → IsMakeable D set
        → Covered cg.meta.namespace names w
        → Holds
            (Covered cg.meta.namespace (insert name set names))
            Any
            (sync_compute_group D cg set name is_leader w)
    sync_compute_group-Covers cg set name op_key key is_leader names w keyed makeable h =
        let ns = cg.meta.namespace in
        let (made, makes, named, placed) = deploy_of D cg set name op_key key is_leader makeable in
        let deploy = add_deploy_ownership D.quantities D.meta made cg in
        let (same_name, same_place, _) = add_deploy_ownership_keeps D made cg in
        let (gives, (has, covered)) = find_or_create_deployment-Has deploy ns names w h in
        let c = (find_or_create_deployment D deploy w).1.cluster in
        let there : Has c ns name =
          subst (λ (n : String). Has c ns n) (same_name ∙ named)
            (subst (λ (q : String). Has c q deploy.meta.name) (same_place ∙ placed) has) in
        sync_compute_group-Holds_of_found D (Covers ns (insert name set names))
          (Covers-IsKept ns (insert name set names)) cg set name op_key key is_leader made w keyed
          makes (gives, Covers-insert ns name set names _ there covered)

    -- The loop over the workers runs to its end, and all that named_workers names is there.
    sync_workers-Covers :
        (cg : ComputeGroup) (op_key key : String) (i : ℕ) (workers : List (Option ComputeSetSpec))
        (names all : Entries ComputeSetSpec) (w : World D)
        → get_compute_group_keys cg ≡ ok (op_key, key)
        → All (Behind (IsMakeable D)) workers
        → named_workers cg.meta.name i workers names ≡ ok all
        → Covered cg.meta.namespace names w
        → Completes (Covered cg.meta.namespace all) (sync_workers D cg i workers w)
    unfolding sync_workers named_workers
    sync_workers-Covers cg op_key key i [] names all w keyed _ e h =
        (refl, subst (λ m. Covered cg.meta.namespace m w) (ok-injective e) h)
    sync_workers-Covers cg op_key key i (none ∷ workers) names all w keyed _ e h = cc
    sync_workers-Covers cg op_key key i (some set ∷ workers) names all w keyed (m, ms) e h =
        let name = fill_name set.instance_spec (cg.meta.name <> "-worker" <> show_int (pos i)) in
        Completes-attempt _ (Covered cg.meta.namespace all) (sync_compute_group D cg set name false)
          _ w (sync_compute_group-Covers cg set name op_key key false names w keyed m h)
          (λ t h'. sync_workers-Covers cg op_key key (i + 1) workers _ all t keyed ms e h')

    -- When the caches are up to date, the servers answer, a deployment that is created is there and no
    -- call makes one vanish, and the group has its keys and makeable sets: processNewComputeGroup ends
    -- without an error, and each name that handleUnneededDeployments gives to a set of the group has a
    -- deployment in the group's namespace.
    pub process_new_compute_group-Covers :
        (cg : ComputeGroup) (op_key key : String) (all : Entries ComputeSetSpec) (w : World D)
        → get_compute_group_keys cg ≡ ok (op_key, key)
        → Behind (IsMakeable D) cg.spec.compute_leaders
        → All (Behind (IsMakeable D)) (items cg.spec.compute_workers)
        → build_named_spec cg ≡ ok all
        → Completes (Covered cg.meta.namespace all) (process_new_compute_group D cg w)
    unfolding process_new_compute_group build_named_spec lookup
    process_new_compute_group-Covers cg op_key key all w keyed leads works e =
        elim (Option-cases cg.spec.compute_leaders) [
          | inl none_leads ↦ absurd (ground (arith, none_leads, e))
          | inr (set, some_leads) ↦
              let name = fill_name set.instance_spec (cg.meta.name <> "-leader") in
              let makeable : IsMakeable D set = subst (Behind (IsMakeable D)) some_leads leads in
              let named : named_workers cg.meta.name 0 (items cg.spec.compute_workers)
                    (insert name set [])
                  ≡ ok all =
                ground (arith, e, some_leads) in
              rw (some_leads, process_new_compute_group)
                (Completes-attempt (Covered cg.meta.namespace (insert name set []))
                  (Covered cg.meta.namespace all) (sync_compute_group D cg set name true) _ w
                  (sync_compute_group-Covers cg set name op_key key true [] w keyed makeable
                    (λ k h. absurd (ground (arith, h))))
                  (λ t h.
                    sync_workers-Covers cg op_key key 0 (items cg.spec.compute_workers) _ all t
                      keyed works named h))
        ]
