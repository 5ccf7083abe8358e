-- ===== src/Operator/Work.antt =====
-- The handlers of operators, processNextOperator and processNextComputeGroup of
-- pkg/controllers/operator/operator_controller.go. A queue knows an object by its pointer, which stays
-- the same when the object's status is defaulted.
use datafuse_operator.Prelude.{◌==◌, Bool, true, false, Option, none, some, if◌then◌else◌}
use datafuse_operator.Go.Result.{Result, GoError, ok, err, panic}
use datafuse_operator.Go.Exec.{error_value}
use datafuse_operator.Kube.Queue.{WorkQueue, error_handler}
use datafuse_operator.Api.Types.{Operator, ComputeGroup}
use datafuse_operator.Utils.Groups.{is_operator_created, is_compute_group_created}
use datafuse_operator.Operator.Deps.{OperatorDeps, World}
use datafuse_operator.Operator.Groups.{process_new_operator}
use datafuse_operator.Operator.Sets.{process_new_compute_group}
use datafuse_operator.Operator.Updates.{process_updated_compute_group}
use datafuse_operator.Operator.Events.{GroupObject, group_pointer}

-- An interface{} value that a handler of operators is given: informers deliver pointers.
pub data OperatorObject : Type 0 where
  operator_value : Operator → OperatorObject
  operator_pointer : Operator → OperatorObject
  other : OperatorObject

-- errorHandler, and the answer `true`; a panic goes on.
unfoldable pub finish :
    {Item : Type 0} (Q : WorkQueue Item)
    → Item
    → Result (Option GoError)
    → Q.State
    → Result Bool × Q.State
finish Q obj (ok e) q = (ok true, error_handler Q obj e q)
finish Q obj (err e) q = (err e, q)
finish Q obj panic q = (panic, q)

module _ (D : OperatorDeps) where
  module _ (Q : WorkQueue OperatorObject) where
    -- AddFunc of the operators
    unfoldable pub on_operator_added : OperatorObject → Q.State → Q.State
    on_operator_added new_obj q = Q.add_rate_limited new_obj q

    -- UpdateFunc of the operators, whose type assertions name the type and not its pointer
    unfoldable pub on_operator_updated : OperatorObject → OperatorObject → Q.State → Q.State
    on_operator_updated (operator_value old) (operator_value new) q =
        if old.meta.resource_version == new.meta.resource_version
        then q
        else Q.add_rate_limited (operator_value new) q
    on_operator_updated _ _ q = q

    -- The body of processNextOperator behind Get, without the deferred Done.
    unfoldable pub process_operator_object :
        OperatorObject → Q.State → World D → Result Bool × Q.State × World D
    unfolding finish
    process_operator_object (operator_pointer op) q w =
        let (created, op') = is_operator_created op in
        let (r, w') = process_new_operator D op' w in
        let (answer, q') = finish Q (operator_pointer op) (error_value r) q in (answer, q', w')
    process_operator_object obj q w = (ok true, Q.forget obj q, w)

    -- processNextOperator; the answer is `false` for a queue that is shut down.
    unfoldable pub process_next_operator : Q.State → World D → Result Bool × Q.State × World D
    process_next_operator q w =
        let (obj, q₁) = Q.next q in
        elim obj [
          | none ↦ (ok false, q₁, w)
          | some o ↦
              let (answer, q₂, w') = process_operator_object o q₁ w in (answer, Q.done o q₂, w')
        ]

  -- processNewComputeGroup or processUpdatedComputeGroup, by the state of the group.
  unfoldable pub process_group : ComputeGroup → World D → Result (Unit {0}) × World D
  process_group group w =
      let (created, group') = is_compute_group_created group in
      if created
      then process_new_compute_group D group' w
      else process_updated_compute_group D group' w

  module _ (Q : WorkQueue GroupObject) where
    -- The body of processNextComputeGroup behind Get, without the deferred Done.
    unfoldable pub process_group_object :
        GroupObject → Q.State → World D → Result Bool × Q.State × World D
    unfolding finish
    process_group_object (group_pointer group) q w =
        let (r, w') = process_group group w in
        let (answer, q') = finish Q (group_pointer group) (error_value r) q in (answer, q', w')
    process_group_object obj q w = (ok true, Q.forget obj q, w)

    -- processNextComputeGroup
    unfoldable pub process_next_compute_group : Q.State → World D → Result Bool × Q.State × World D
    process_next_compute_group q w =
        let (obj, q₁) = Q.next q in
        elim obj [
          | none ↦ (ok false, q₁, w)
          | some o ↦ let (answer, q₂, w') = process_group_object o q₁ w in (answer, Q.done o q₂, w')
        ]
