-- ===== src/Tests/Copies.antt =====
-- Deep copies of a compute group with labels and a state, and of an operator that has it.
use datafuse_operator.Prelude.{String, none, some, [], ◌∷◌, ◌≡◌, refl}
use datafuse_operator.Go.Map.{lookup}
use datafuse_operator.Kube.Meta.{empty_meta}
use datafuse_operator.Api.Types.{Operator, ComputeGroup, ComputeSetSpec}
use datafuse_operator.Api.ObjectCopies.{
  RuntimeObject, operator_list_object, IsObject, deep_copy_object, deep_copy_object_lem,
}
use datafuse_operator.Tests.Fixtures.{two_replicas, instance_spec}
use datafuse_operator.Tests.Deployments.{group_with}

abbrev labelled : ComputeSetSpec
labelled = record two_replicas {
  instance_spec = record instance_spec { labels = some (("a", "1") ∷ ("b", "2") ∷ []) };
}

abbrev source : ComputeGroup
source = record (group_with (some labelled ∷ none ∷ [])) {
  status = record {
    ready_compute_leaders = some (("default/group-leader", "READY") ∷ []);
    ready_compute_workers = none;
    status = "Ready";
    group_service_status = record { name = "" };
  };
}

abbrev source_operator : Operator
source_operator = record {
  meta = record empty_meta { name = "op"; namespace = "default" };
  spec = record { compute_groups = some (some source.spec ∷ []); version = some "v1" };
  status = record {
    compute_group_states = some (("default/group", "Ready") ∷ []);
    status = "Ready";
  };
}

-- A list of the operator, whose own metadata is a text.
abbrev listing : RuntimeObject String
listing =
    operator_list_object (some (record { list_meta = "7"; items = some (source_operator ∷ []) }))

deep_copy_object_lem_example : deep_copy_object (λ o. o) (λ l. l) listing ≡ some listing
unfolding lookup IsObject
deep_copy_object_lem_example =
    deep_copy_object_lem (λ o. o) (λ o. refl) (λ l. l) (λ l. refl) listing
      ((((tt, ((refl, (refl, tt)), (tt, tt))), tt), (refl, tt)), tt)
