-- ===== src/Operator/Loops.antt =====
-- runGroupWorker and runOperatorWorker (pkg/controllers/operator/operator_controller.go): the loops of
-- the workers, and that they end when the queues are shut down.
use datafuse_operator.Prelude.{
  ℕ, ◌<◌, Bool, true, false, Option, some, ◌≡◌, refl, arith, Option-cases, inl, inr,
}
use datafuse_operator.Go.Result.{Result, GoError, ok, err, panic}
use datafuse_operator.Go.Exec.{error_value}
use datafuse_operator.Kube.Queue.{WorkQueue}
use datafuse_operator.Kube.Worker.{
  run_worker, IsDraining, IsDrained, run_worker-ends, error_handler-IsDrained,
}
use datafuse_operator.Utils.Groups.{is_operator_created}
use datafuse_operator.Operator.Deps.{OperatorDeps, World}
use datafuse_operator.Operator.Groups.{process_new_operator}
use datafuse_operator.Operator.Events.{GroupObject, group_pointer, group_value, other}
use datafuse_operator.Operator.Work.{
  OperatorObject, operator_pointer, operator_value, other as unknown, process_next_operator,
  process_next_compute_group, process_group_object, process_operator_object, process_group, finish,
}

module _ {Item : Type 0} (Q : WorkQueue Item) (draining : IsDraining Q) where
  finish-IsDrained :
      (o : Item) (r : Result (Option GoError)) (q : Q.State)
      → draining.IsShutDown q
      → IsDrained Q draining q (finish Q o r q).1
  unfolding finish
  finish-IsDrained o (ok e) q shut = error_handler-IsDrained Q draining o e q shut
  finish-IsDrained o (err e) q shut = (shut, omega arith)
  finish-IsDrained o panic q shut = (shut, omega arith)

module _ (D : OperatorDeps) where
  module _ (Q : WorkQueue GroupObject) where
    -- A round of runGroupWorker.
    unfoldable pub group_round : Q.State × World D → Result Bool × (Q.State × World D)
    group_round (q, w) =
        let (answer, q', w') = process_next_compute_group D Q q w in (answer, (q', w'))

    -- runGroupWorker, for at most n rounds
    unfoldable pub run_group_worker :
        ℕ → Q.State × World D → Option (Result (Unit {0}) × (Q.State × World D))
    run_group_worker n s = run_worker group_round n s

    module _ (draining : IsDraining Q) where
      process_group_object-IsDrained :
          (o : GroupObject) (q : Q.State) (w : World D)
          → draining.IsShutDown q
          → IsDrained Q draining q (process_group_object D Q o q w).1
      unfolding process_group_object
      process_group_object-IsDrained (group_pointer group) q w shut =
          finish-IsDrained Q draining (group_pointer group)
            (error_value (process_group D group w).0) q shut
      process_group_object-IsDrained (group_value group) q w shut =
          draining.forgets q (group_value group) shut
      process_group_object-IsDrained other q w shut = draining.forgets q other shut

      -- A round that goes on has taken an object.
      group_round-takes :
          (s : Q.State × World D)
          → draining.IsShutDown s.0
          → (group_round s).0 ≡ ok true
          → draining.IsShutDown (group_round s).1.0
            × draining.pending (group_round s).1.0 < draining.pending s.0
      unfolding group_round process_next_compute_group
      group_round-takes (q, w) shut again = elim (Option-cases (Q.next q).0) [
        | inl quit ↦
            let stops : (process_next_compute_group D Q q w).0 ≡ ok false =
              rw (quit, process_next_compute_group) refl in
            absurd (ground (arith, stops, again))
        | inr (o, got) ↦
            let (shut₁, fewer) = draining.takes q o shut got in
            let (shut₂, kept) = process_group_object-IsDrained o (Q.next q).1 w shut₁ in
            let (shut₃, done) =
              draining.dones (process_group_object D Q o (Q.next q).1 w).1 o shut₂ in
            rw (got, process_next_compute_group) (shut₃, omega arith)
      ]

      -- When the queue of compute groups drains as documented and is shut down, with fewer than n objects
      -- pending, runGroupWorker returns, fails or panics within n rounds, whatever the objects are.
      pub run_group_worker-ends :
          (q : Q.State) (w : World D) (n : ℕ)
          → draining.IsShutDown q
          → draining.pending q < n
          → (out : Result (Unit {0}) × (Q.State × World D)) × (run_group_worker n (q, w) ≡ some out)
      unfolding run_group_worker
      run_group_worker-ends q w n shut less =
          run_worker-ends group_round (λ s. draining.IsShutDown s.0) (λ s. draining.pending s.0)
            group_round-takes n (q, w) shut less

  module _ (Q : WorkQueue OperatorObject) where
    -- A round of runOperatorWorker.
    unfoldable pub operator_round : Q.State × World D → Result Bool × (Q.State × World D)
    operator_round (q, w) =
        let (answer, q', w') = process_next_operator D Q q w in (answer, (q', w'))

    -- runOperatorWorker, for at most n rounds
    unfoldable pub run_operator_worker :
        ℕ → Q.State × World D → Option (Result (Unit {0}) × (Q.State × World D))
    run_operator_worker n s = run_worker operator_round n s

    module _ (draining : IsDraining Q) where
      process_operator_object-IsDrained :
          (o : OperatorObject) (q : Q.State) (w : World D)
          → draining.IsShutDown q
          → IsDrained Q draining q (process_operator_object D Q o q w).1
      unfolding process_operator_object
      process_operator_object-IsDrained (operator_pointer op) q w shut =
          finish-IsDrained Q draining (operator_pointer op)
            (error_value (process_new_operator D (is_operator_created op).1 w).0) q shut
      process_operator_object-IsDrained (operator_value op) q w shut =
          draining.forgets q (operator_value op) shut
      process_operator_object-IsDrained unknown q w shut = draining.forgets q unknown shut

      -- A round that goes on has taken an object.
      operator_round-takes :
          (s : Q.State × World D)
          → draining.IsShutDown s.0
          → (operator_round s).0 ≡ ok true
          → draining.IsShutDown (operator_round s).1.0
            × draining.pending (operator_round s).1.0 < draining.pending s.0
      unfolding operator_round process_next_operator
      operator_round-takes (q, w) shut again = elim (Option-cases (Q.next q).0) [
        | inl quit ↦
            let stops : (process_next_operator D Q q w).0 ≡ ok false =
              rw (quit, process_next_operator) refl in
            absurd (ground (arith, stops, again))
        | inr (o, got) ↦
            let (shut₁, fewer) = draining.takes q o shut got in
            let (shut₂, kept) = process_operator_object-IsDrained o (Q.next q).1 w shut₁ in
            let (shut₃, done) =
              draining.dones (process_operator_object D Q o (Q.next q).1 w).1 o shut₂ in
            rw (got, process_next_operator) (shut₃, omega arith)
      ]

      -- When the queue of operators drains as documented and is shut down, with fewer than n objects
      -- pending, runOperatorWorker returns, fails or panics within n rounds, whatever the objects are.
      pub run_operator_worker-ends :
          (q : Q.State) (w : World D) (n : ℕ)
          → draining.IsShutDown q
          → draining.pending q < n
          → (out : Result (Unit {0}) × (Q.State × World D)) × (run_operator_worker n (q, w)
              ≡ some out)
      unfolding run_operator_worker
      run_operator_worker-ends q w n shut less =
          run_worker-ends operator_round (λ s. draining.IsShutDown s.0) (λ s. draining.pending s.0)
            operator_round-takes n (q, w) shut less
