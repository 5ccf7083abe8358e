-- ===== src/Tests/Complete.antt =====
-- processNewComputeGroup of a group with a worker, on a cluster that keeps what is created.
use datafuse_operator.Prelude.{
  String, true, Option, none, some, [], ◌∷◌, eq_refl, ◌≡◌, refl, arith, Bool-cases, inl, inr,
  if◌then◌else◌, nat_eq, subst,
}
use datafuse_operator.Go.Int.{ℤ, pos}
use datafuse_operator.Go.Map.{Entries, insert}
use datafuse_operator.Go.Text.{show_int, show_nat, digits, digit}
use datafuse_operator.Go.Result.{Result, GoError, ok, err, errorf, external}
use datafuse_operator.Go.Holds.{Gives, Completes}
use datafuse_operator.Kube.Objects.{Deployment}
use datafuse_operator.Api.Types.{ComputeSetSpec}
use datafuse_operator.Operator.Deps.{OperatorDeps, World}
use datafuse_operator.Operator.Sets.{process_new_compute_group, fill_name}
use datafuse_operator.Operator.Events.{build_named_spec, named_workers}
use datafuse_operator.Operator.Makeable.{}
use datafuse_operator.Operator.Kept.{HasReplicas}
use datafuse_operator.Operator.Complete.{
  Has, Covered, IsDeploymentApi, process_new_compute_group-Covers,
}
use datafuse_operator.Tests.Fixtures
use datafuse_operator.Tests.Fixtures.{container_spec, made_spec}
use datafuse_operator.Tests.Deployments as Deployments

-- What the API server gives a deployment without a number of replicas.
abbrev pub filled : Option ℤ → ℤ
filled none = pos 1
filled (some r) = r

abbrev pub defaulted : Deployment String → Deployment String
defaulted d = record d { spec = record d.spec { replicas = some (filled d.spec.replicas) } }

-- The first of a namespace and a name, which is the newest.
abbrev pub newest : Deployments.Deployments → String → String → Result (Deployment String)
newest [] ns n = err (external 404 n)
newest (d ∷ ds) ns n =
    let rest = newest ds ns n in if Deployments.is_named ns n d then ok (defaulted d) else rest

abbrev pub deps : OperatorDeps
deps = record Deployments.deps {
  get_deployment = newest;
  create_deployment = λ ns d c. (ok (defaulted d), d ∷ c);
  update_deployment = λ ns d c. (ok (defaulted d), d ∷ c);
}

newest-Gives :
    (c : Deployments.Deployments) (ns n : String) → Gives (HasReplicas deps) (newest c ns n)
newest-Gives [] ns n = tt
newest-Gives (d ∷ ds) ns n = elim (Bool-cases (Deployments.is_named ns n d)) [
  | inl h ↦ rw h (filled d.spec.replicas, refl)
  | inr h ↦ rw h (newest-Gives ds ns n)
]

newest-misses :
    (c : Deployments.Deployments) (ns n : String) (e : GoError)
    → newest c ns n ≡ err e
    → deps.meta.is_not_found e ≡ true
newest-misses [] ns n (errorf x) h = absurd (ground (arith, h))
newest-misses [] ns n (external m x) h =
    let same : 404 ≡ m = ground (arith, h) in subst (λ k. nat_eq k 404 ≡ true) same refl
newest-misses (d ∷ ds) ns n e h = elim (Bool-cases (Deployments.is_named ns n d)) [
  | inl named ↦ absurd (ground (arith, h, named))
  | inr other ↦ newest-misses ds ns n e (ground (arith, h, other))
]

Has-cons :
    (d : Deployment String) (c : Deployments.Deployments) (ns n : String)
    → Has deps c ns n
    → Has deps (d ∷ c) ns n
Has-cons d c ns n (found, h) = elim (Bool-cases (Deployments.is_named ns n d)) [
  | inl named ↦ (defaulted d, rw named refl)
  | inr other ↦ (found, rw other h)
]

deps-IsDeploymentApi : IsDeploymentApi deps
deps-IsDeploymentApi = record {
  answers = record {
    gets_deployment = λ c ns n _. newest-Gives c ns n;
    gets_service = λ c ns n _. tt;
    creates_deployment = λ ns d c _. ((filled d.spec.replicas, refl), tt);
    updates_deployment = λ ns d c _. (tt, tt);
    creates_service = λ ns s c _. (tt, tt);
    updates_group = λ ns g c _. (tt, tt);
  };
  missing = newest-misses;
  appears = λ c d. (defaulted d, rw (eq_refl d.meta.namespace, eq_refl d.meta.name) refl);
  outlives_create = λ ns' d c ns n h. Has-cons d c ns n h;
  outlives_update = λ ns' d c ns n h. Has-cons d c ns n h;
  outlives_service = λ ns' s c ns n h. h;
  outlives_group = λ ns' g c ns n h. h;
}

abbrev quiet : World deps
quiet = record { cluster = []; events = [] }

abbrev all : Entries ComputeSetSpec
all = ("group-leader", Fixtures.two_replicas) ∷ ("group-worker0", Fixtures.two_replicas) ∷ []

names_of_group : build_named_spec Deployments.group ≡ ok all
unfolding build_named_spec named_workers fill_name insert show_int show_nat digits digit
names_of_group = refl

process_new_compute_group-Covers_example :
    Completes
      (Covered deps deps-IsDeploymentApi "default" all)
      (process_new_compute_group deps Deployments.group quiet)
process_new_compute_group-Covers_example =
    process_new_compute_group-Covers deps deps-IsDeploymentApi Deployments.group "" "default-group"
      all quiet Deployments.keyed (container_spec, made_spec) ((container_spec, made_spec), tt)
      names_of_group
