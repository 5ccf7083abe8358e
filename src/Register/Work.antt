-- ===== src/Register/Work.antt =====
-- processNextItem of pkg/controllers/register/register_controller.go.
use datafuse_operator.Prelude.{◌<>◌, Bool, true, false, Option, none, some, if◌then◌else◌}
use datafuse_operator.Go.Result.{Result, GoError, ok, err, panic, errorf}
use datafuse_operator.Go.Exec.{error_value}
use datafuse_operator.Kube.Queue.{WorkQueue, error_handler}
use datafuse_operator.Register.Nodes.{is_group_leader, is_group_worker}
use datafuse_operator.Register.Listing.{RegisterDeps, APod, Object, pod, other, RegisterController}
use datafuse_operator.Register.Process.{
  NetState, process_leader, process_unready_worker, process_ready_worker,
}

module _ (D : RegisterDeps) where
  -- What is done with a pod: the errors that processing it gave, or `none` for a pod that has no role.
  unfoldable pub process_pod :
      RegisterController D → APod D → NetState D → Option (Result (Unit {0}) × NetState D)
  process_pod rc p net =
      if D.is_pod_ready p
      then (if is_group_leader D.quantities p
          then some (process_leader D rc p net)
          else if is_group_worker D.quantities p
          then some (process_ready_worker D rc p net)
          else none)
      else if is_group_leader D.quantities p
      then some (
        err (
            errorf (
              "current leader pod " <> p.meta.name <> " in " <> p.meta.namespace
              <> " is not ready")),
        net,
      )
      else if is_group_worker D.quantities p
      then some (process_unready_worker D rc p net)
      else none

  module _ (Q : WorkQueue (Object D)) where
    -- errorHandler, and the answer `true`; a panic goes on.
    unfoldable pub finish : Object D → Result (Option GoError) → Q.State → Result Bool × Q.State
    finish obj (ok e) q = (ok true, error_handler Q obj e q)
    finish obj (err e) q = (err e, q)
    finish obj panic q = (panic, q)

    -- The body behind Get, without the deferred Done.
    unfoldable pub process_object :
        RegisterController D → Object D → Q.State → NetState D → Result Bool × Q.State × NetState D
    unfolding finish
    process_object rc other q net = (ok true, Q.forget other q, net)
    process_object rc (pod p) q net = elim (process_pod rc p net) [
      | none ↦ (ok true, Q.forget (pod p) q, net)
      | some (r, net') ↦ let (answer, q') = finish (pod p) (error_value r) q in (answer, q', net')
    ]

    -- processNextItem; the answer is `false` for a queue that is shut down.
    unfoldable pub process_next_item :
        RegisterController D → Q.State → NetState D → Result Bool × Q.State × NetState D
    process_next_item rc q net =
        let (obj, q₁) = Q.next q in
        elim obj [
          | none ↦ (ok false, q₁, net)
          | some o ↦
              let (answer, q₂, net') = process_object rc o q₁ net in (answer, Q.done o q₂, net')
        ]
