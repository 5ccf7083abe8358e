-- ===== src/Operator/Overwritten.antt =====
-- The status of a compute group behind processNewComputeGroup, whose updates all start from the group
-- as it was before the sync (pkg/controllers/operator/operator_controller.go).
use datafuse_operator.Prelude.{
  ℕ, ◌+◌, String, ◌<>◌, Bool, true, false, Option, none, some, List, [], ◌∷◌, ◌≡◌, Bool-cases,
  Option-cases, inl, inr, ◌∙◌, refl, sym, subst, if◌then◌else◌,
}
use datafuse_operator.Go.Int.{pos}
use datafuse_operator.Go.Text.{show_int}
use datafuse_operator.Go.Result.{Result, ok, err, panic}
use datafuse_operator.Go.Exec.{pure, lift, attempt, ◌>>=◌, ◌>>◌}
use datafuse_operator.Go.Keeps.{Keeps, Keeps-bind, Keeps-bind_of, Keeps-attempt, Keeps-if}
use datafuse_operator.Kube.Objects.{Service}
use datafuse_operator.Api.Types.{ComputeGroup, ComputeSetSpec, ComputeGroupStatus}
use datafuse_operator.Constants
use datafuse_operator.Utils.Deployments.{make_deployment, make_service, add_deploy_ownership}
use datafuse_operator.Operator.Noted.{
  IsAt, IsWorkerName, IsSetName, IsNoted, HasOneUpdate, ready_group-IsNoted,
}
use datafuse_operator.Operator.Deps.{OperatorDeps, ADeployment, World, call, items, record_event}
use datafuse_operator.Operator.Named.{
  IsStatusStore, find_or_create_deployment-IsAt, scale_deployment-IsAt, deploy-IsAt,
}
use datafuse_operator.Operator.Sets.{
  ready_group, get_compute_group_keys, replicas_differ, update_compute_group_status,
  find_or_create_deployment, ensure_service, fill_name, scale_deployment, sync_compute_group,
  sync_workers, process_new_compute_group,
}

module _ (D : OperatorDeps) where
  module _ (stored : D.Cluster → ComputeGroupStatus) (store : IsStatusStore D stored)
      (old : ComputeGroupStatus) (cg : ComputeGroup) where
    abbrev Written : D.Cluster → Type 0
    Written c = HasOneUpdate old cg (stored c)

    abbrev Here : World D → Type 0
    Here w = Written w.cluster

    Written-of_same : (c c' : D.Cluster) → stored c' ≡ stored c → Written c → Written c'
    Written-of_same c c' same (inl e) = inl (same ∙ e)
    Written-of_same c c' same (inr (is_leader, name, sets, noted)) =
        inr (is_leader, name, sets, subst (IsNoted cg is_leader name) (sym same) noted)

    create_deployment-Keeps :
        (ns : String) (deploy : ADeployment D) → Keeps Here (call D (D.create_deployment ns deploy))
    create_deployment-Keeps ns deploy w h =
        Written-of_same w.cluster _ (store.create_deployment ns deploy w.cluster) h

    create_service-Keeps : (ns : String) (s : Service) → Keeps Here (call D (D.create_service ns s))
    create_service-Keeps ns s w h =
        Written-of_same w.cluster _ (store.create_service ns s w.cluster) h

    update_deployment-Keeps :
        (ns : String) (deploy : ADeployment D) → Keeps Here (call D (D.update_deployment ns deploy))
    update_deployment-Keeps ns deploy w h =
        Written-of_same w.cluster _ (store.update_deployment ns deploy w.cluster) h

    find_or_create_deployment-Keeps :
        (deploy : ADeployment D) → Keeps Here (find_or_create_deployment D deploy)
    unfolding find_or_create_deployment
    find_or_create_deployment-Keeps deploy w h =
        go (D.get_deployment w.cluster deploy.meta.namespace deploy.meta.name)
      where
        go :
            (r : Result (ADeployment D))
            → Here
                (elim r as (λ _. Result (ADeployment D) × World D) [
                  | ok d ↦ (ok d, w)
                  | panic ↦ (panic, w)
                  | err e ↦
                      if D.meta.is_not_found e
                      then call D (D.create_deployment deploy.meta.namespace deploy) w
                      else (err e, w)
                ]).1
        go (ok d) = h
        go panic = h
        go (err e) = elim (Bool-cases (D.meta.is_not_found e)) [
          | inl missing ↦ rw missing (create_deployment-Keeps deploy.meta.namespace deploy w h)
          | inr other ↦ rw other h
        ]

    ensure_service-Keeps :
        (is_leader : Bool) (name : String) (deploy : ADeployment D)
        → Keeps Here (ensure_service D is_leader name deploy)
    unfolding ensure_service
    ensure_service-Keeps false name deploy w h = h
    ensure_service-Keeps true name deploy w₀ h₀ =
        Keeps-bind Here (lift (make_service D.quantities name deploy)) _ (λ w h. h)
          (λ service w h.
            go service w h (D.get_service w.cluster service.meta.namespace service.meta.name))
          w₀ h₀
      where
        go :
            (service : Service) (w : World D)
            → Here w
            → (r : Result Service)
            → Here
                (elim r as (λ _. Result (Unit {0}) × World D) [
                  | ok _ ↦ (ok tt, w)
                  | panic ↦ (panic, w)
                  | err e ↦
                      if D.meta.is_not_found e
                      then (do call D (D.create_service service.meta.namespace service); pure tt) w
                      else (err e, w)
                ]).1
        go service w h (ok d) = h
        go service w h panic = h
        go service w h (err e) = elim (Bool-cases (D.meta.is_not_found e)) [
          | inl missing ↦ rw missing (
              Keeps-bind Here (call D (D.create_service service.meta.namespace service)) _
                (create_service-Keeps service.meta.namespace service) (λ _. (λ v k. k)) w h)
          | inr other ↦ rw other h
        ]

    scale_deployment-Keeps :
        (set : ComputeSetSpec) (deploy d : ADeployment D)
        → Keeps Here (scale_deployment D cg set deploy d)
    unfolding scale_deployment
    scale_deployment-Keeps set deploy d =
        Keeps-bind Here (lift (replicas_differ D set.replicas d.spec.replicas)) _ (λ w h. h)
          (λ differ.
            Keeps-if Here differ _ _ (update_deployment-Keeps cg.meta.namespace deploy) (λ w h. h))

    update_compute_group_status-Keeps :
        (d : ADeployment D) (is_leader : Bool) (name : String)
        → IsSetName cg is_leader name
        → IsAt D cg.meta.namespace name d
        → Keeps Here (update_compute_group_status D cg d is_leader)
    unfolding update_compute_group_status
    update_compute_group_status-Keeps d is_leader name sets at w h =
        elim (store.updates cg.meta.namespace (ready_group D cg d is_leader) w.cluster) [
          | inl e ↦
              let noted = ready_group-IsNoted D cg is_leader name d at in
              inr (is_leader, name, sets, subst (IsNoted cg is_leader name) (sym e) noted)
          | inr e ↦ Written-of_same w.cluster _ e h
        ]

    -- The part of a sync behind its deployment and its service.
    controlled-Keeps :
        (set : ComputeSetSpec) (name : String) (is_leader : Bool) (deploy d : ADeployment D)
        → IsSetName cg is_leader name
        → IsAt D cg.meta.namespace name deploy
        → IsAt D cg.meta.namespace name d
        → Keeps Here (
            scale_deployment D cg set deploy d >>= λ d'.
            update_compute_group_status D cg d' is_leader
            >> record_event D "Normal" Constants.success_synced Constants.message_resource_synced)
    controlled-Keeps set name is_leader deploy d sets sent at =
        Keeps-bind_of Here (IsAt D cg.meta.namespace name) (scale_deployment D cg set deploy d) _
          (scale_deployment-Keeps set deploy d)
          (scale_deployment-IsAt D stored store cg set deploy d cg.meta.namespace name sent at)
          (λ d' at'.
            Keeps-bind Here (update_compute_group_status D cg d' is_leader)
              (λ _.
                record_event D "Normal" Constants.success_synced Constants.message_resource_synced)
              (update_compute_group_status-Keeps d' is_leader name sets at') (λ _ w h. h))

    sync_compute_group-Keeps :
        (set : ComputeSetSpec) (name : String) (is_leader : Bool)
        → IsSetName cg is_leader name
        → Keeps Here (sync_compute_group D cg set name is_leader)
    unfolding sync_compute_group
    sync_compute_group-Keeps set name is_leader sets =
        Keeps-bind Here (lift (get_compute_group_keys cg)) _ (λ w h. h)
          (λ keys.
            Keeps-bind_of Here
              (λ made.
                IsAt D cg.meta.namespace name (add_deploy_ownership D.quantities D.meta made cg))
              (lift
                (make_deployment D.quantities set name cg.meta.namespace keys.0 keys.1 is_leader))
              _ (λ w h. h) (λ _. deploy-IsAt D stored store cg set name keys.0 keys.1 is_leader)
              (λ made sent.
                let deploy = add_deploy_ownership D.quantities D.meta made cg in
                Keeps-bind_of Here (IsAt D deploy.meta.namespace deploy.meta.name)
                  (find_or_create_deployment D deploy) _ (find_or_create_deployment-Keeps deploy)
                  (find_or_create_deployment-IsAt D stored store cg deploy)
                  (λ d at.
                    Keeps-bind Here (ensure_service D is_leader cg.meta.name deploy) _
                      (ensure_service-Keeps is_leader cg.meta.name deploy)
                      (λ _.
                        Keeps-if Here (D.meta.is_controlled_by d.meta cg.meta) _ _
                          (controlled-Keeps set name is_leader deploy d sets sent
                            (at.0 ∙ sent.0, at.1 ∙ sent.1))
                          (λ w h. h)))))

    sync_workers-Keeps :
        (i : ℕ) (workers : List (Option ComputeSetSpec))
        → ((name : String) → IsWorkerName cg.meta.name i workers name → IsSetName cg false name)
        → Keeps Here (sync_workers D cg i workers)
    unfolding sync_workers IsWorkerName
    sync_workers-Keeps i [] among w h = h
    sync_workers-Keeps i (none ∷ workers) among w h = h
    sync_workers-Keeps i (some set ∷ workers) among w h =
        let name = fill_name set.instance_spec (cg.meta.name <> "-worker" <> show_int (pos i)) in
        Keeps-bind Here (attempt (sync_compute_group D cg set name false))
          (λ _. sync_workers D cg (i + 1) workers)
          (Keeps-attempt Here (sync_compute_group D cg set name false)
            (sync_compute_group-Keeps set name false (among name (inl refl))))
          (λ _. sync_workers-Keeps (i + 1) workers (λ n of. among n (inr of))) w h

    -- The status behind processNewComputeGroup, from a state where it was `old`.
    pub process_new_compute_group-HasOneUpdate :
        (w : World D)
        → stored w.cluster ≡ old
        → HasOneUpdate old cg (stored (process_new_compute_group D cg w).1.cluster)
    unfolding process_new_compute_group
    process_new_compute_group-HasOneUpdate w e = elim (Option-cases cg.spec.compute_leaders) [
      | inl nil ↦ rw (nil, process_new_compute_group) (inl e)
      | inr (set, some_set) ↦
          let name = fill_name set.instance_spec (cg.meta.name <> "-leader") in
          simp (some_set, process_new_compute_group)
            (Keeps-bind Here (attempt (sync_compute_group D cg set name true))
              (λ _. sync_workers D cg 0 (items cg.spec.compute_workers))
              (Keeps-attempt Here (sync_compute_group D cg set name true)
                (sync_compute_group-Keeps set name true (set, some_set, refl)))
              (λ _. sync_workers-Keeps 0 (items cg.spec.compute_workers) (λ _ of. of)) w (inl e))
    ]
