-- ===== src/Operator/Restarted.antt =====
-- The status of an operator behind processNewOperator, whose updates all start from the operator as it
-- was before the sync (pkg/controllers/operator/operator_controller.go).
use datafuse_operator.Prelude.{
  String, Option, none, some, List, [], ◌∷◌, ◌≡◌, refl, Bool-cases, inl, inr, ◌∙◌, sym, subst,
  if◌then◌else◌,
}
use datafuse_operator.Go.Result.{Result, GoError, ok, err, panic}
use datafuse_operator.Go.Exec.{pure, attempt, ◌>>=◌, ◌>>◌}
use datafuse_operator.Go.Keeps.{Keeps, Keeps-bind, Keeps-bind_of, Keeps-attempt}
use mathlib.Core.List.{Mem, Subset, mem-cons_self, mem-cons_of_mem}
use datafuse_operator.Constants
use datafuse_operator.Api.Types.{Operator, ComputeGroup, ComputeGroupSpec, OperatorStatus}
use datafuse_operator.Api.Defaults.{set_operator_default}
use datafuse_operator.Operator.Deps.{OperatorDeps, World, call, items, record_event, lister_get}
use datafuse_operator.Operator.Deployed.{
  IsOperatorStore, HasOneState, IsDeployedIn, IsFor, IsFoundFor, deployed_operator-IsDeployedIn,
  find_or_create_group-IsFoundFor,
}
use datafuse_operator.Operator.Groups.{
  deployed_operator, update_operator_status, desired_group, find_or_create_group, adopt_group,
  sync_group, sync_groups, process_new_operator,
}

module _ (D : OperatorDeps) where
  module _ (stored : D.Cluster → OperatorStatus) (store : IsOperatorStore D stored)
      (old : OperatorStatus) (op : Operator) where
    abbrev Here : World D → Type 0
    Here w = HasOneState old op (stored w.cluster)

    HasOneState-of_same :
        (new new' : OperatorStatus) → new' ≡ new → HasOneState old op new → HasOneState old op new'
    HasOneState-of_same new new' same (inl e) = inl (same ∙ e)
    HasOneState-of_same new new' same (inr (spec, of, (namespace, deployed))) =
        inr (spec, of, (namespace, subst (IsDeployedIn op spec namespace) (sym same) deployed))

    create_group-Keeps :
        (ns : String) (g : ComputeGroup) → Keeps Here (call D (D.create_group ns g))
    create_group-Keeps ns g w h =
        HasOneState-of_same (stored w.cluster) _ (store.create_group ns g w.cluster) h

    update_operator_status-Keeps :
        (spec : ComputeGroupSpec) (g : ComputeGroup)
        → Mem (some spec) (items op.spec.compute_groups)
        → IsFor spec g
        → Keeps Here (update_operator_status D g op)
    unfolding update_operator_status
    update_operator_status-Keeps spec g of for w h =
        elim (store.updates op.meta.namespace (deployed_operator D g op) w.cluster) [
          | inl e ↦
              let deployed = deployed_operator-IsDeployedIn D op spec g for in
              inr (
                spec,
                of,
                (g.meta.namespace, subst (IsDeployedIn op spec g.meta.namespace) (sym e) deployed),
              )
          | inr e ↦ HasOneState-of_same (stored w.cluster) _ e h
        ]

    find_or_create_group-Keeps :
        (spec : ComputeGroupSpec) (group : ComputeGroup)
        → Keeps Here (find_or_create_group D spec group)
    unfolding find_or_create_group
    find_or_create_group-Keeps spec group w h =
        go (lister_get D w.cluster spec.namespace group.meta.name)
      where
        go :
            (r : Result ComputeGroup)
            → Here
                (elim r as (λ _. Result (Option ComputeGroup × Option GoError) × World D) [
                  | ok g ↦ (ok (some g, none), w)
                  | panic ↦ (panic, w)
                  | err e ↦
                      if D.meta.is_not_found e
                      then (do
                        (g, e') ← call D (D.create_group group.meta.namespace group)
                        pure (some g, e'))
                          w
                      else (ok (none, some e), w)
                ]).1
        go (ok d) = h
        go panic = h
        go (err e) = elim (Bool-cases (D.meta.is_not_found e)) [
          | inl missing ↦ rw missing (
              Keeps-bind Here (call D (D.create_group group.meta.namespace group)) _
                (create_group-Keeps group.meta.namespace group) (λ _ v k. k) w h)
          | inr other ↦ rw other h
        ]

    adopt_group-Keeps :
        (spec : ComputeGroupSpec) (found : Option ComputeGroup × Option GoError)
        → Mem (some spec) (items op.spec.compute_groups)
        → IsFoundFor spec found
        → Keeps Here (adopt_group D op found)
    unfolding adopt_group
    adopt_group-Keeps spec (none, e) of for w h = h
    adopt_group-Keeps spec (some g, e) of for w h =
        elim (Bool-cases (D.meta.is_controlled_by g.meta op.meta)) [
          | inr foreign ↦ simp (foreign, adopt_group) h
          | inl ours ↦ simp (ours, adopt_group) (go e)
        ]
      where
        go :
            (e : Option GoError)
            → Here
                (elim e as (λ _. Result (Unit {0}) × World D) [
                  | some e' ↦ (err e', w)
                  | none ↦
                      (do
                        update_operator_status D g op
                        record_event D "Normal" Constants.success_synced
                            Constants.message_resource_synced)
                        w
                ]).1
        go (some e) = h
        go none =
            Keeps-bind Here (update_operator_status D g op)
              (λ _.
                record_event D "Normal" Constants.success_synced Constants.message_resource_synced)
              (update_operator_status-Keeps spec g of for) (λ _ v k. k) w h

    sync_group-Keeps :
        (spec : Option ComputeGroupSpec)
        → Mem spec (items op.spec.compute_groups)
        → Keeps Here (sync_group D op spec)
    unfolding sync_group
    sync_group-Keeps none of w h = h
    sync_group-Keeps (some spec) of w h =
        Keeps-bind_of Here (IsFoundFor spec) (find_or_create_group D spec (desired_group D op spec))
          (adopt_group D op) (find_or_create_group-Keeps spec _)
          (find_or_create_group-IsFoundFor D stored store op spec)
          (λ found for. adopt_group-Keeps spec found of for) w h

    sync_groups-Keeps :
        (specs : List (Option ComputeGroupSpec))
        → Subset specs (items op.spec.compute_groups)
        → Keeps Here (sync_groups D op specs)
    unfolding sync_groups
    sync_groups-Keeps [] among w h = h
    sync_groups-Keeps (spec ∷ specs) among w h =
        Keeps-bind Here (attempt (sync_group D op spec)) (λ _. sync_groups D op specs)
          (Keeps-attempt Here (sync_group D op spec)
            (sync_group-Keeps spec (among spec mem-cons_self)))
          (λ _. sync_groups-Keeps specs (λ s of. among s (mem-cons_of_mem spec of))) w h

  -- Let every update of an operator store its status or change nothing, the creation of a compute group
  -- leave the status, and the cache and the server give compute groups by the namespaces and names that
  -- they are asked for. Whatever processNewOperator does, the status that is stored behind it is the one
  -- before, or one that is ready and says that the compute group of just one of the specifications is
  -- deployed, in the specification's namespace or in `default` where that is empty: of each other key it
  -- says what the status said that the operator came with.
  pub process_new_operator-HasOneState :
      (stored : D.Cluster → OperatorStatus) (op : Operator) (w : World D)
      → IsOperatorStore D stored
      → HasOneState
          (stored w.cluster)
          (set_operator_default op)
          (stored (process_new_operator D op w).1.cluster)
  unfolding process_new_operator
  process_new_operator-HasOneState stored op w store =
      sync_groups-Keeps stored store (stored w.cluster) (set_operator_default op)
        (items (set_operator_default op).spec.compute_groups) (λ _ of. of) w (inl refl)
