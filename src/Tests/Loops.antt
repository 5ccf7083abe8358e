-- ===== src/Tests/Loops.antt =====
-- The workers of a queue that is shut down.
use datafuse_operator.Prelude.{ℕ, ◌+◌, ◌<◌, Option, none, some, List, [], ◌∷◌, ◌≡◌, arith}
use datafuse_operator.Go.Result.{Result}
use datafuse_operator.Kube.Queue.{WorkQueue}
use datafuse_operator.Kube.Worker.{IsDraining}
use datafuse_operator.Operator.Deps.{World}
use datafuse_operator.Operator.Events.{GroupObject, group_pointer, other}
use datafuse_operator.Operator.Loops.{run_group_worker, run_group_worker-ends}
use datafuse_operator.Tests.Deployments as Deployments

-- The queue, which is shut down: it gives out what it has, and takes nothing in.
abbrev pub take_first : {Item : Type 0} → List Item → Option Item × List Item
take_first [] = (none, [])
take_first (o ∷ q) = (some o, q)

abbrev closed : (Item : Type 0) → WorkQueue Item
closed Item = record {
  State = List Item;
  next = take_first;
  done = λ _ q. q;
  forget = λ _ q. q;
  add = λ _ q. q;
  add_rate_limited = λ _ q. q;
  num_requeues = λ _ _. 0;
}

abbrev pub size : {Item : Type 0} → List Item → ℕ
size [] = 0
size (o ∷ q) = size q + 1

pub takes_first :
    {Item : Type 0} (q : List Item) (o : Item)
    → (take_first q).0 ≡ some o
    → Unit {0} × size (take_first q).1 < size q
takes_first [] o got = absurd (ground (arith, got))
takes_first (p ∷ q) o got = (tt, omega arith)

closed-IsDraining : (Item : Type 0) → IsDraining (closed Item)
closed-IsDraining Item = record {
  IsShutDown = λ _. Unit;
  pending = size;
  takes = λ s o _ got. takes_first s o got;
  dones = λ s o _. (tt, omega arith);
  forgets = λ s o _. (tt, omega arith);
  ignores = λ s o _. (tt, omega arith);
}

abbrev quiet : World Deployments.deps
quiet = record { cluster = []; events = [] }

-- A compute group and an object that is none.
abbrev groups : List GroupObject
groups = group_pointer Deployments.group ∷ other ∷ []

run_group_worker-ends_example :
    (out : Result (Unit {0}) × (List GroupObject × World Deployments.deps)) × (run_group_worker
        Deployments.deps
        (closed GroupObject)
        3
        (groups, quiet)
      ≡ some out)
unfolding closed-IsDraining
run_group_worker-ends_example =
    run_group_worker-ends Deployments.deps (closed GroupObject) (closed-IsDraining GroupObject)
      groups quiet 3 tt (omega arith)
