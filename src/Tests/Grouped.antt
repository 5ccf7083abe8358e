-- ===== src/Tests/Grouped.antt =====
-- processNewOperator of an operator with two groups, on a cluster that keeps what is created.
use datafuse_operator.Prelude.{
  String, ◌<>◌, Option, none, some, List, [], ◌∷◌, map, ◌==◌, refl, Bool-cases, inl, inr,
  if◌then◌else◌, eq_refl, All,
}
use datafuse_operator.Go.Result.{ok, err, external}
use datafuse_operator.Go.Holds.{Completes}
use datafuse_operator.Api.Types.{Operator, ComputeGroup, ComputeGroupSpec}
use datafuse_operator.Operator.Deps.{OperatorDeps, World}
use datafuse_operator.Operator.Groups.{process_new_operator}
use datafuse_operator.Operator.Grouped.{HasGroup, HasSpec, IsGroupApi, process_new_operator-Covers}
use datafuse_operator.Tests.Fixtures.{texts, apimachinery, apimachinery-IsLawful, two_replicas}
use datafuse_operator.Tests.Queues.{op}

-- The newest group of a key.
abbrev newest : List ComputeGroup → String → Option ComputeGroup
newest [] k = none
newest (g ∷ gs) k =
    let rest = newest gs k in if g.meta.namespace <> "/" <> g.meta.name == k then some g else rest

abbrev deps : OperatorDeps
deps = record {
  quantities = texts;
  meta = apimachinery;
  Cluster = List ComputeGroup;
  group_by_key = λ c k. ok (newest c k);
  get_deployment = λ _ _ n. err (external 404 n);
  get_service = λ _ _ n. err (external 404 n);
  create_deployment = λ ns d c. (ok d, c);
  update_deployment = λ ns d c. (ok d, c);
  delete_deployment = λ ns n c. (ok tt, c);
  create_service = λ ns s c. (ok s, c);
  create_group = λ ns g c. (ok (g, none), g ∷ c);
  update_group = λ ns g c. (ok tt, c);
  update_operator = λ ns op c. (ok tt, c);
  range = λ ks. ks;
}

HasGroup-cons :
    (g : ComputeGroup) (c : List ComputeGroup) (ns n : String)
    → HasGroup deps c ns n
    → HasGroup deps (g ∷ c) ns n
HasGroup-cons g c ns n (found, h) =
    elim (Bool-cases (g.meta.namespace <> "/" <> g.meta.name == ns <> "/" <> n)) [
      | inl same ↦ (g, rw same refl)
      | inr other ↦ (found, rw other h)
    ]

deps-IsGroupApi : IsGroupApi deps
deps-IsGroupApi = record {
  answers = record {
    creates_group = λ ns g c _. (tt, tt);
    updates_operator = λ ns op c _. (tt, tt);
  };
  indexed = λ c k. (newest c k, refl);
  appears = λ c g. (g, rw (eq_refl (g.meta.namespace <> "/" <> g.meta.name)) refl);
  outlives_create = λ ns' g c ns n h. HasGroup-cons g c ns n h;
  outlives_update = λ ns' op c ns n h. h;
}

abbrev spec_of : String → String → ComputeGroupSpec
spec_of name namespace = record {
  compute_leaders = some two_replicas;
  compute_workers = none;
  name = name;
  namespace = namespace;
}

abbrev specs : List ComputeGroupSpec
specs = spec_of "first" "default" ∷ spec_of "second" "other" ∷ []

abbrev two_groups : Operator
two_groups = record op { spec = record op.spec { compute_groups = some (map some specs) } }

abbrev quiet : World deps
quiet = record { cluster = []; events = [] }

process_new_operator-Covers_example :
    Completes
      (λ (v : World deps). All (λ spec. HasSpec deps spec v.cluster) specs)
      (process_new_operator deps two_groups quiet)
process_new_operator-Covers_example =
    process_new_operator-Covers deps deps-IsGroupApi apimachinery-IsLawful two_groups specs quiet
      refl (refl, (refl, tt))
