-- ===== src/Tests/Operator.antt =====
-- The operator controller's theorems at a small cluster.
use datafuse_operator.Prelude.{
  String, not, ◌&&◌, none, some, is_some, List, [], ◌∷◌, ◌==◌, ◌≡◌, refl,
}
use datafuse_operator.Go.Map.{Entries, lookup, insert}
use datafuse_operator.Go.Text.{show_int, show_nat, digits, digit}
use datafuse_operator.Go.Result.{ok}
use datafuse_operator.Kube.Objects.{Deployment}
use datafuse_operator.Kube.Queue.{WorkQueue}
use datafuse_operator.Api.Types.{ComputeGroup, ComputeSetSpec}
use datafuse_operator.Utils.Deployments.{add_deploy_ownership}
use datafuse_operator.Operator.Deps.{World}
use datafuse_operator.Operator.Sets.{fill_name}
use datafuse_operator.Operator.Events.{
  GroupObject, build_named_spec, named_workers, handle_unneeded_deployments, handle_object, object,
  tombstone,
}
use datafuse_operator.Operator.Work.{OperatorObject}
use datafuse_operator.Operator.Unneeded.{handle_unneeded_deployments_lem}
use datafuse_operator.Operator.Ownership.{handle_object-add_deploy_ownership}
use datafuse_operator.Tests.Fixtures.{texts, apimachinery, apimachinery-IsLawful, two_replicas}
use datafuse_operator.Tests.Deployments.{deps, exists, exists-IsDeleting, group_with, group, made}

-- A cluster with a deployment of the worker's name.
abbrev world : Deployment String → World deps
world d = record { cluster = d ∷ []; events = [] }

-- The worker's deployment as the group owns it.
abbrev owned : Deployment String
owned = add_deploy_ownership texts apimachinery made group

-- The names of a group with one worker, and of the group with two.
abbrev one_worker : Entries ComputeSetSpec
one_worker = ("group-leader", two_replicas) ∷ ("group-worker0", two_replicas) ∷ []

abbrev two_workers : Entries ComputeSetSpec
two_workers =
    ("group-leader", two_replicas)
    ∷ ("group-worker0", two_replicas)
    ∷ ("group-worker1", two_replicas)
    ∷ []

abbrev larger : ComputeGroup
larger = group_with (some two_replicas ∷ some two_replicas ∷ [])

names_of_larger : build_named_spec larger ≡ ok two_workers
unfolding build_named_spec named_workers fill_name insert show_int show_nat digits digit
names_of_larger = refl

names_of_group : build_named_spec group ≡ ok one_worker
unfolding build_named_spec named_workers fill_name insert show_int show_nat digits digit
names_of_group = refl

handle_unneeded_deployments_lem_example :
    ((handle_unneeded_deployments deps larger group (world made)).0 ≡ ok tt)
    × ((ns n : String)
        → exists (handle_unneeded_deployments deps larger group (world made)).1.cluster ns n ≡ (
            not (
              ("default" == ns)
              && (is_some (lookup n two_workers) && not (is_some (lookup n one_worker))))
            && exists (made ∷ []) ns n))
handle_unneeded_deployments_lem_example =
    handle_unneeded_deployments_lem deps exists exists-IsDeleting larger group two_workers
      one_worker (world made) names_of_larger names_of_group

abbrev group_queue : WorkQueue GroupObject
group_queue = record {
  State = List GroupObject;
  next = λ q. (none, q);
  done = λ _ q. q;
  forget = λ _ _. [];
  add = λ o q. o ∷ q;
  add_rate_limited = λ o q. o ∷ q;
  num_requeues = λ _ _. 0;
}

abbrev operator_queue : WorkQueue OperatorObject
operator_queue = record {
  State = List OperatorObject;
  next = λ q. (none, q);
  done = λ _ q. q;
  forget = λ _ _. [];
  add = λ o q. o ∷ q;
  add_rate_limited = λ o q. o ∷ q;
  num_requeues = λ _ _. 0;
}

handle_object-add_deploy_ownership_example :
    (handle_object deps group_queue [] (object owned.meta) [] ≡ ok [])
    × (handle_object deps group_queue [] (tombstone (some owned.meta)) [] ≡ ok [])
handle_object-add_deploy_ownership_example =
    handle_object-add_deploy_ownership deps apimachinery-IsLawful group_queue [] made group [] refl
