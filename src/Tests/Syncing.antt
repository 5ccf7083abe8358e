-- ===== src/Tests/Syncing.antt =====
-- syncComputeGroup of a worker whose deployment has another number of replicas.
use datafuse_operator.Prelude.{
  String, true, false, some, [], ◌∷◌, eq_refl, ◌≡◌, ◌⊎◌, refl, Bool-cases, inl, inr,
}
use datafuse_operator.Go.Int.{ℤ, pos}
use datafuse_operator.Go.Result.{GoError, ok, err, external}
use datafuse_operator.Kube.Objects.{Deployment}
use datafuse_operator.Utils.Deployments.{add_deploy_ownership}
use datafuse_operator.Operator.Deps.{World}
use datafuse_operator.Operator.Settle.{IsSyncApi}
use datafuse_operator.Operator.Sync.{IsSynced, IsForeign, sync_compute_group-IsSynced}
use datafuse_operator.Tests.Fixtures.{texts, apimachinery, apimachinery-IsLawful, two_replicas}
use datafuse_operator.Tests.Deployments.{Deployments, is_named, group, keyed, made, makes}
use datafuse_operator.Tests.Complete.{filled, defaulted, newest, deps}

newest-cases :
    (c : Deployments) (ns n : String)
    → ((d : Deployment String) × (r : ℤ) × (newest c ns n ≡ ok d) × (d.spec.replicas ≡ some r))
      ⊎ ((e : GoError) × (newest c ns n ≡ err e) × (deps.meta.is_not_found e ≡ true))
newest-cases [] ns n = inr (external 404 n, refl, refl)
newest-cases (d ∷ ds) ns n = elim (Bool-cases (is_named ns n d)) [
  | inl named ↦ rw named (inl (defaulted d, filled d.spec.replicas, refl, refl))
  | inr other ↦ rw other (newest-cases ds ns n)
]

sent :
    (d : Deployment String) (r : ℤ)
    → d.spec.replicas ≡ some r
    → some (filled d.spec.replicas) ≡ some r
sent d r e = rw e refl

there :
    (d : Deployment String) (c : Deployments)
    → newest (d ∷ c) d.meta.namespace d.meta.name ≡ ok (defaulted d)
there d c = rw (eq_refl d.meta.namespace, eq_refl d.meta.name) refl

deps-IsSyncApi : IsSyncApi deps
deps-IsSyncApi = record {
  caches = newest-cases;
  services = λ c ns n. inr (external 404 n, refl, refl);
  creates = λ d c. (defaulted d, d ∷ c, refl, (sent d, λ m. refl), there d c);
  updates = λ d c. (defaulted d, d ∷ c, refl, (sent d, λ m. refl), there d c);
  creates_service = λ ns s c. (s, c, refl, λ ns' n. refl);
  updates_group = λ ns g c. (c, refl, λ ns' n. refl);
}

-- The worker's deployment, which the group controls, with one replica.
abbrev small : Deployment String
small =
    let owned = add_deploy_ownership texts apimachinery made group in
    record owned { spec = record owned.spec { replicas = some (pos 1) } }

abbrev world : World deps
world = record { cluster = small ∷ []; events = [] }

sync_compute_group-IsSynced_example :
    IsSynced deps group two_replicas "group-worker0" false (pos 2) world "default" "group-worker0"
    ⊎ IsForeign deps group two_replicas "group-worker0" false world "default" "group-worker0"
sync_compute_group-IsSynced_example =
    sync_compute_group-IsSynced deps deps-IsSyncApi apimachinery-IsLawful group two_replicas
      "group-worker0" "" "default-group" false made (pos 2) keyed makes refl world
