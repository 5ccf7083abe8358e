-- ===== src/Register/Loop.antt =====
-- The loop over processNextItem in RegisterController.Run
-- (pkg/controllers/register/register_controller.go).
use datafuse_operator.Prelude.{ℕ, Bool, Option}
use datafuse_operator.Go.Result.{Result}
use datafuse_operator.Kube.Queue.{WorkQueue}
use datafuse_operator.Kube.Worker.{run_worker}
use datafuse_operator.Register.Listing.{RegisterDeps, Object, RegisterController}
use datafuse_operator.Register.Process.{NetState}
use datafuse_operator.Register.Work.{process_next_item}

module _ (D : RegisterDeps) (Q : WorkQueue (Object D)) (rc : RegisterController D) where
  -- A round of the loop.
  unfoldable pub item_round : Q.State × NetState D → Result Bool × (Q.State × NetState D)
  item_round (q, net) =
      let (answer, q', net') = process_next_item D Q rc q net in (answer, (q', net'))

  -- The loop, for at most n rounds
  unfoldable pub run_items :
      ℕ → Q.State × NetState D → Option (Result (Unit {0}) × (Q.State × NetState D))
  run_items n s = run_worker item_round n s
