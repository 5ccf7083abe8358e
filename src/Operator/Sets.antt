-- ===== src/Operator/Sets.antt =====
-- The deployments and the service of a compute group: syncComputeGroup, updateComputeGroupStatus,
-- GetComputeGroupKeys and processNewComputeGroup of pkg/controllers/operator/operator_controller.go.
use datafuse_operator.Prelude.{
  ℕ, ◌+◌, String, ◌<>◌, Bool, true, false, Option, none, some, List, [], ◌∷◌, ◌==◌, ◌||◌,
  if◌then◌else◌,
}
use datafuse_operator.Go.Int.{ℤ, pos, int_eq}
use datafuse_operator.Go.Text.{show_int}
use datafuse_operator.Go.Map.{get, put}
use datafuse_operator.Go.Result.{Result, ok, err, panic, errorf}
use datafuse_operator.Go.Exec.{Exec, pure, raise, lift, attempt, ◌>>=◌, ◌>>◌}
use datafuse_operator.Api.Types.{
  ComputeGroup, ComputeSetSpec, ComputeInstanceSpec, compute_group_deployed,
  compute_instance_ready_state,
}
use datafuse_operator.Constants
use datafuse_operator.Utils.Deployments.{make_deployment, make_service, add_deploy_ownership}
use datafuse_operator.Operator.Deps.{OperatorDeps, items, ADeployment, World, call, record_event}

-- GetComputeGroupKeys
unfoldable pub get_compute_group_keys : ComputeGroup → Result (String × String)
get_compute_group_keys cg =
    if (cg.meta.name == "") || (cg.meta.namespace == "")
    then err (errorf "compute group name or namespace is empty")
    else ok (
      elim (get Constants.operator_label cg.meta.labels) [ none ↦ "" | some key ↦ key ],
      cg.meta.namespace <> "-" <> cg.meta.name,
    )

-- `fillName` in processNewComputeGroup
unfoldable pub fill_name : ComputeInstanceSpec → String → String
fill_name spec basic = elim spec.name [ none ↦ basic | some name ↦ name ]

module _ (D : OperatorDeps) where
  -- The group that updateComputeGroupStatus writes.
  unfoldable pub ready_group : ComputeGroup → ADeployment D → Bool → ComputeGroup
  ready_group cg d is_leader =
      let key = d.meta.namespace <> "/" <> d.meta.name in
      if is_leader
      then record cg {
        status = record cg.status {
          status = compute_group_deployed;
          ready_compute_leaders =
              put key compute_instance_ready_state cg.status.ready_compute_leaders;
        };
      }
      else record cg {
        status = record cg.status {
          ready_compute_workers =
              put key compute_instance_ready_state cg.status.ready_compute_workers;
        };
      }

  -- updateComputeGroupStatus
  unfoldable pub update_compute_group_status :
      ComputeGroup → ADeployment D → Bool → Exec (World D) (Unit {0})
  update_compute_group_status cg d is_leader =
      call D (D.update_group cg.meta.namespace (ready_group cg d is_leader))

  -- The deployment in the cache, or the one that is created.
  unfoldable pub find_or_create_deployment : ADeployment D → Exec (World D) (ADeployment D)
  find_or_create_deployment deploy w =
      elim (D.get_deployment w.cluster deploy.meta.namespace deploy.meta.name) [
        | ok d ↦ (ok d, w)
        | panic ↦ (panic, w)
        | err e ↦
            if D.meta.is_not_found e
            then call D (D.create_deployment deploy.meta.namespace deploy) w
            else (err e, w)
      ]

  -- The same for the service of the group, for a leader only.
  unfoldable pub ensure_service : Bool → String → ADeployment D → Exec (World D) (Unit {0})
  ensure_service false name deploy w = (ok tt, w)
  ensure_service true name deploy w =
      (do
        service ← lift (make_service D.quantities name deploy)
        (λ w'. elim (D.get_service w'.cluster service.meta.namespace service.meta.name) [
          | ok _ ↦ (ok tt, w')
          | panic ↦ (panic, w')
          | err e ↦
              if D.meta.is_not_found e
              then (do call D (D.create_service service.meta.namespace service); pure tt) w'
              else (err e, w')
        ]))
        w

  -- `set.Replicas != nil && *set.Replicas != *d.Spec.Replicas`
  unfoldable pub replicas_differ : Option ℤ → Option ℤ → Result Bool
  replicas_differ none actual = ok false
  replicas_differ (some wanted) none = panic
  replicas_differ (some wanted) (some actual) = ok (if int_eq wanted actual then false else true)

  -- The deployment, updated if it has another number of replicas.
  unfoldable pub scale_deployment :
      ComputeGroup → ComputeSetSpec → ADeployment D → ADeployment D → Exec (World D) (ADeployment D)
  scale_deployment cg set deploy d = do
    differ ← lift (replicas_differ set.replicas d.spec.replicas)
    if differ then call D (D.update_deployment cg.meta.namespace deploy) else pure d

  -- syncComputeGroup
  unfoldable pub sync_compute_group :
      ComputeGroup → ComputeSetSpec → String → Bool → Exec (World D) (Unit {0})
  sync_compute_group cg set name is_leader = do
    (op_key, group_key) ← lift (get_compute_group_keys cg)
    made ← lift (make_deployment D.quantities set name cg.meta.namespace op_key group_key is_leader)
    let deploy = add_deploy_ownership D.quantities D.meta made cg
    d ← find_or_create_deployment deploy
    ensure_service is_leader cg.meta.name deploy
    if D.meta.is_controlled_by d.meta cg.meta
        then (do
          d' ← scale_deployment cg set deploy d
          update_compute_group_status cg d' is_leader
          record_event D "Normal" Constants.success_synced Constants.message_resource_synced)
        else (do
          let msg =
              "deployment " <> d.meta.name <> " in " <> d.meta.namespace
              <> " existed but not controlled by group " <> cg.meta.name
          record_event D "Warning" Constants.error_resource_exists msg
          raise (errorf msg))

  -- The loop over the workers in processNewComputeGroup, from worker number i. `err` is nil when it is
  -- tested, so the error of syncComputeGroup is dropped.
  unfoldable pub sync_workers :
      ComputeGroup → ℕ → List (Option ComputeSetSpec) → Exec (World D) (Unit {0})
  sync_workers cg i [] w = (ok tt, w)
  sync_workers cg i (none ∷ workers) w = (panic, w)
  sync_workers cg i (some worker ∷ workers) w =
      let rest = sync_workers cg (i + 1) workers in
      let name = fill_name worker.instance_spec (cg.meta.name <> "-worker" <> show_int (pos i)) in
      (do attempt (sync_compute_group cg worker name false); rest) w

  -- processNewComputeGroup; DeepCopy is a copy of the value.
  unfoldable pub process_new_compute_group : ComputeGroup → Exec (World D) (Unit {0})
  process_new_compute_group cg w = elim cg.spec.compute_leaders [
    | none ↦ (panic, w)
    | some leaders ↦
        (do
          attempt (
              sync_compute_group cg leaders
                (fill_name leaders.instance_spec (cg.meta.name <> "-leader")) true)
          sync_workers cg 0 (items cg.spec.compute_workers))
          w
  ]
