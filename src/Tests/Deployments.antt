-- ===== src/Tests/Deployments.antt =====
-- A cluster of deployments for the operator controller, and a compute group with its workers.
use datafuse_operator.Prelude.{
  String, Bool, false, not, ◌&&◌, ◌||◌, Option, none, some, List, [], ◌∷◌, ◌==◌, eq_iff,
  if◌then◌else◌, ◌≡◌, refl, arith,
}
use datafuse_operator.Go.Int.{pos}
use datafuse_operator.Go.Map.{get}
use datafuse_operator.Go.Result.{Result, ok, err, external}
use datafuse_operator.Kube.Objects.{Deployment}
use datafuse_operator.Kube.Meta.{empty_meta}
use datafuse_operator.Constants
use datafuse_operator.Api.Types.{ComputeGroup, ComputeSetSpec}
use datafuse_operator.Utils.Groups.{empty_group}
use datafuse_operator.Utils.Deployments.{make_deployment}
use datafuse_operator.Operator.Deps.{OperatorDeps}
use datafuse_operator.Operator.Sets.{get_compute_group_keys}
use datafuse_operator.Operator.Unneeded.{IsDeleting}
use datafuse_operator.Tests.Fixtures.{texts, apimachinery, two_replicas, container_spec, made_spec}

abbrev pub Deployments : Type 0
Deployments = List (Deployment String)

abbrev pub is_named : String → String → Deployment String → Bool
is_named ns n d = (d.meta.namespace == ns) && (d.meta.name == n)

abbrev pub exists : Deployments → String → String → Bool
exists [] ns n = false
exists (d ∷ ds) ns n = is_named ns n d || exists ds ns n

abbrev find : Deployments → String → String → Result (Deployment String)
find [] ns n = err (external 404 n)
find (d ∷ ds) ns n = let rest = find ds ns n in if is_named ns n d then ok d else rest

abbrev without : String → String → Deployments → Deployments
without ns n [] = []
without ns n (d ∷ ds) = let rest = without ns n ds in if is_named ns n d then rest else d ∷ rest

-- A cluster of deployments, without services, whose API server refuses new compute groups.
abbrev pub deps : OperatorDeps
deps = record {
  quantities = texts;
  meta = apimachinery;
  Cluster = Deployments;
  group_by_key = λ _ _. ok none;
  get_deployment = find;
  get_service = λ _ _ n. err (external 404 n);
  create_deployment = λ ns d c. (ok d, d ∷ c);
  update_deployment = λ ns d c. (ok d, d ∷ without ns d.meta.name c);
  delete_deployment = λ ns n c. (ok tt, without ns n c);
  create_service = λ ns s c. (ok s, c);
  create_group = λ ns g c. (ok (empty_group, some (external 500 "refused")), c);
  update_group = λ ns g c. (ok tt, c);
  update_operator = λ ns op c. (ok tt, c);
  range = λ ks. ks;
}

exists-without :
    (ns n ns' n' : String) (ds : Deployments)
    → exists (without ns n ds) ns' n' ≡ (not ((ns == ns') && (n == n')) && exists ds ns' n')
exists-without ns n ns' n' [] = ground arith
exists-without ns n ns' n' (d ∷ ds) = ground (
  arith,
  exists-without ns n ns' n' ds,
  eq_iff d.meta.namespace ns,
  eq_iff d.meta.namespace ns',
  eq_iff d.meta.name n,
  eq_iff d.meta.name n',
  eq_iff ns ns',
  eq_iff n n',
)

pub exists-IsDeleting : IsDeleting deps exists
exists-IsDeleting = record {
  answers = λ c ns n. (none, refl);
  deletes = λ c ns n ns' n'. exists-without ns n ns' n' c;
  visits = λ ks k. refl;
}

-- A compute group with so many workers.
abbrev pub group_with : List (Option ComputeSetSpec) → ComputeGroup
group_with workers = record empty_group {
  meta = record empty_meta { name = "group"; namespace = "default"; uid = "u1" };
  spec = record {
    compute_leaders = some two_replicas;
    compute_workers = some workers;
    name = "group";
    namespace = "default";
  };
}

abbrev pub group : ComputeGroup
group = group_with (some two_replicas ∷ [])

pub keyed : get_compute_group_keys group ≡ ok ("", "default-group")
unfolding get_compute_group_keys get
keyed = refl

abbrev pub made : Deployment String
made = record {
  meta = record empty_meta {
    name = "group-worker0";
    namespace = "default";
    labels = some (
        (Constants.operator_label, "")
        ∷ (Constants.compute_group_label, "default-group")
        ∷ (Constants.compute_group_role_label, Constants.compute_group_role_follower)
        ∷ []);
  };
  spec = record {
    replicas = some (pos 2);
    match_labels = some (
        (Constants.operator_label, "")
        ∷ (Constants.compute_group_label, "default-group")
        ∷ (Constants.compute_group_role_label, Constants.compute_group_role_follower)
        ∷ []);
    template = record {
      meta = record empty_meta {
        labels = some (
            (Constants.operator_label, "")
            ∷ (Constants.compute_group_label, "default-group")
            ∷ (Constants.compute_group_role_label, Constants.compute_group_role_follower)
            ∷ []);
      };
      spec = container_spec;
    };
  };
}

pub makes :
    make_deployment texts two_replicas "group-worker0" "default" "" "default-group" false ≡ ok made
unfolding make_deployment
makes = rw made_spec refl
