-- ===== src/Tests/Queues.antt =====
-- An operator and a compute group whose processing fails.
use datafuse_operator.Prelude.{true, none, some, List, [], ◌∷◌, ◌≡◌, refl, arith}
use datafuse_operator.Go.Result.{ok}
use datafuse_operator.Kube.Meta.{empty_meta}
use datafuse_operator.Kube.Queue.{WorkQueue}
use datafuse_operator.Api.Types.{Operator, ComputeGroup}
use datafuse_operator.Utils.Groups.{empty_group, is_operator_created, is_compute_group_created}
use datafuse_operator.Operator.Deps.{World, lister_get}
use datafuse_operator.Operator.Groups.{
  process_new_operator, sync_groups, sync_group, find_or_create_group, adopt_group,
}
use datafuse_operator.Operator.Sets.{
  process_new_compute_group, sync_compute_group, get_compute_group_keys, sync_workers,
}
use datafuse_operator.Api.Defaults.{set_operator_default}
use datafuse_operator.Operator.Events.{group_pointer}
use datafuse_operator.Operator.Work.{
  operator_pointer, process_operator_object, process_group, process_group_object,
}
use datafuse_operator.Operator.LostErrors.{
  process_operator_object-forgets, process_group_object-forgets,
}
use datafuse_operator.Tests.Fixtures.{two_replicas}
use datafuse_operator.Tests.Deployments.{deps}

-- A queue that keeps what was put back.

abbrev queue : {Item : Type 0} → WorkQueue Item
queue {Item} = record {
  State = List Item;
  next = λ q. (none, q);
  done = λ _ q. q;
  forget = λ _ _. [];
  add = λ o q. o ∷ q;
  add_rate_limited = λ o q. o ∷ q;
  num_requeues = λ _ _. 0;
}

abbrev pub quiet : World deps
quiet = record { cluster = []; events = [] }

-- An operator with one group, which the API server refuses to create.
abbrev pub op : Operator
op = record {
  meta = record empty_meta { name = "op"; namespace = "default"; uid = "u0" };
  spec = record {
    compute_groups = some (
        some (record {
          compute_leaders = some two_replicas;
          compute_workers = none;
          name = "group";
          namespace = "default";
        })
        ∷ []);
    version = none;
  };
  status = record { compute_group_states = none; status = "" };
}

op_answers : (process_operator_object deps queue (operator_pointer op) [] quiet).0 ≡ ok true
unfolding process_operator_object process_new_operator sync_groups set_operator_default
    is_operator_created sync_group find_or_create_group lister_get adopt_group
op_answers = refl

process_operator_object-forgets_example :
    process_operator_object deps queue (operator_pointer op) [] quiet
    ≡ (ok true, [], (process_new_operator deps (is_operator_created op).1 quiet).1)
process_operator_object-forgets_example =
    process_operator_object-forgets deps queue op [] quiet (λ e. ground (arith, op_answers, e))

-- A group without a name, whose keys are an error.
abbrev nameless : ComputeGroup
nameless = record empty_group {
  spec = record empty_group.spec { compute_leaders = some two_replicas };
}

nameless_answers : (process_group_object deps queue (group_pointer nameless) [] quiet).0 ≡ ok true
unfolding process_group_object process_group is_compute_group_created process_new_compute_group
    sync_compute_group get_compute_group_keys sync_workers
nameless_answers = refl

process_group_object-forgets_example :
    process_group_object deps queue (group_pointer nameless) [] quiet
    ≡ (ok true, [], (process_group deps nameless quiet).1)
process_group_object-forgets_example =
    process_group_object-forgets deps queue nameless [] quiet
      (λ e. ground (arith, nameless_answers, e))
