-- ===== src/Operator/Groups.antt =====
-- The compute groups of an operator: syncGroup2, updateOperatorStatus and processNewOperator of
-- pkg/controllers/operator/operator_controller.go.
use datafuse_operator.Prelude.{◌<>◌, Option, none, some, List, [], ◌∷◌, if◌then◌else◌}
use datafuse_operator.Go.Map.{put}
use datafuse_operator.Go.Result.{GoError, ok, err, panic, errorf}
use datafuse_operator.Go.Exec.{Exec, pure, raise, attempt, ◌>>=◌, ◌>>◌}
use datafuse_operator.Api.Types.{
  Operator, ComputeGroup, ComputeGroupSpec, operator_ready, compute_group_deployed,
}
use datafuse_operator.Api.Defaults.{set_operator_default, set_compute_group_defaults}
use datafuse_operator.Constants
use datafuse_operator.Utils.Groups.{make_compute_group}
use datafuse_operator.Operator.Deps.{OperatorDeps, items, World, call, record_event, lister_get}

module _ (D : OperatorDeps) where
  -- The operator that updateOperatorStatus writes.
  unfoldable pub deployed_operator : ComputeGroup → Operator → Operator
  deployed_operator cg op = record op {
    status = record {
      compute_group_states =
          put (cg.meta.namespace <> "/" <> cg.meta.name) compute_group_deployed
            op.status.compute_group_states;
      status = operator_ready;
    };
  }

  -- updateOperatorStatus
  unfoldable pub update_operator_status : ComputeGroup → Operator → Exec (World D) (Unit {0})
  update_operator_status cg op =
      call D (D.update_operator op.meta.namespace (deployed_operator cg op))

  -- `group` in syncGroup2
  unfoldable pub desired_group : Operator → ComputeGroupSpec → ComputeGroup
  desired_group op spec = set_compute_group_defaults D.meta op (make_compute_group D.meta op spec)

  -- `g, err` in syncGroup2: the group in the cache, or the one that is created. `none` is nil.
  unfoldable pub find_or_create_group :
      ComputeGroupSpec → ComputeGroup → Exec (World D) (Option ComputeGroup × Option GoError)
  find_or_create_group spec group w = elim (lister_get D w.cluster spec.namespace group.meta.name) [
    | ok g ↦ (ok (some g, none), w)
    | panic ↦ (panic, w)
    | err e ↦
        if D.meta.is_not_found e
        then (do (g, e') ← call D (D.create_group group.meta.namespace group); pure (some g, e')) w
        else (ok (none, some e), w)
  ]

  -- The rest of syncGroup2.
  unfoldable pub adopt_group :
      Operator → Option ComputeGroup × Option GoError → Exec (World D) (Unit {0})
  adopt_group op (none, e) w = (panic, w)
  adopt_group op (some g, e) w =
      if D.meta.is_controlled_by g.meta op.meta
      then elim e [
        | some e' ↦ (err e', w)
        | none ↦
            (do
              update_operator_status g op
              record_event D "Normal" Constants.success_synced Constants.message_resource_synced)
              w
      ]
      else (do
        let msg =
            "group " <> g.meta.name <> " in " <> g.meta.namespace
            <> " existed but not controlled by operator " <> op.meta.name
        record_event D "Warning" Constants.error_resource_exists msg
        raise (errorf msg))
          w

  -- syncGroup2
  unfoldable pub sync_group : Operator → Option ComputeGroupSpec → Exec (World D) (Unit {0})
  sync_group op none w = (panic, w)
  sync_group op (some spec) w =
      (do found ← find_or_create_group spec (desired_group op spec); adopt_group op found) w

  -- The loop of processNewOperator: multierr.Append's result is dropped, so an error is lost.
  unfoldable pub sync_groups : Operator → List (Option ComputeGroupSpec) → Exec (World D) (Unit {0})
  sync_groups op [] = pure tt
  sync_groups op (group ∷ groups) =
      let rest = sync_groups op groups in attempt (sync_group op group) >> rest

  -- processNewOperator; DeepCopy is a copy of the value.
  unfoldable pub process_new_operator : Operator → Exec (World D) (Unit {0})
  process_new_operator op =
      let copy = set_operator_default op in sync_groups copy (items copy.spec.compute_groups)
