-- ===== src/Operator/Updates.antt =====
-- processUpdatedComputeGroup of pkg/controllers/operator/operator_controller.go: the ready instances
-- whose deployments are gone are taken off the group's status.
use datafuse_operator.Prelude.{
  String, Bool, true, false, Option, none, some, List, [], ◌∷◌, if◌then◌else◌,
}
use datafuse_operator.Go.Text.{split_n}
use datafuse_operator.Go.Map.{GoMap, Entries, erase, keys}
use datafuse_operator.Go.Result.{Result, ok, err, panic}
use datafuse_operator.Go.Exec.{Exec, pure, attempt, ◌>>=◌, ◌>>◌}
use datafuse_operator.Api.Types.{ComputeGroup, compute_group_pending}
use datafuse_operator.Operator.Deps.{OperatorDeps, World, call, cached}
use datafuse_operator.Operator.Sets.{process_new_compute_group}

module _ (D : OperatorDeps) where
  -- Is the deployment of a status key gone? The key has the form namespace/name, or the index panics.
  unfoldable pub is_gone : D.Cluster → String → Result Bool
  is_gone c key = elim (split_n b'/' key) [
    | ns ∷ name ∷ _ ↦ elim (D.get_deployment c ns name) [
      | ok _ ↦ ok false
      | err e ↦ ok (D.meta.is_not_found e)
      | panic ↦ panic
    ]
    | _ ↦ panic
  ]

  -- One of the two loops, over keys of the old status: the entries left, and whether one is gone.
  unfoldable pub drop_gone :
      D.Cluster → List String → Entries String → Result (Entries String × Bool)
  drop_gone c [] entries = ok (entries, false)
  drop_gone c (key ∷ keys) entries =
      let rest = drop_gone c keys (erase key entries) in
      let same = drop_gone c keys entries in
      elim (is_gone c key) [
        | ok true ↦ elim rest [ ok (left, _) ↦ ok (left, true) | err e ↦ err e | panic ↦ panic ]
        | ok false ↦ same
        | err e ↦ err e
        | panic ↦ panic
      ]

  unfoldable pub drop_gone_map : D.Cluster → GoMap String → Result (GoMap String × Bool)
  drop_gone_map c none = ok (none, false)
  drop_gone_map c (some m) = elim (drop_gone c (D.range (keys m)) m) [
    | ok (left, gone) ↦ ok (some left, gone)
    | err e ↦ err e
    | panic ↦ panic
  ]

  -- opCopy behind the two loops
  unfoldable pub without_gone : ComputeGroup → Exec (World D) ComputeGroup
  without_gone op = do
    (leaders, gone) ← cached D (λ c. drop_gone_map c op.status.ready_compute_leaders)
    (workers, gone') ← cached D (λ c. drop_gone_map c op.status.ready_compute_workers)
    pure (record op {
      status = record op.status {
        ready_compute_leaders = leaders;
        ready_compute_workers = workers;
        status =
            if gone
            then compute_group_pending
            else if gone'
            then compute_group_pending
            else op.status.status;
      };
    })

  is_nil : {A : Type 0} → Option A → Bool
  is_nil none = true
  is_nil (some _) = false

  -- processUpdatedComputeGroup: the error of Update is dropped, and the sync starts from the old group.
  unfoldable pub process_updated_compute_group : ComputeGroup → Exec (World D) (Unit {0})
  unfolding is_nil
  process_updated_compute_group op w =
      if (if is_nil op.status.ready_compute_leaders
        then is_nil op.status.ready_compute_workers
        else false)
      then process_new_compute_group D op w
      else (do
        copy ← without_gone op
        attempt (call D (D.update_group op.meta.namespace copy))
        process_new_compute_group D op)
          w
