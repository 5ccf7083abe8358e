-- ===== src/Tests/Statuses.antt =====
-- Clusters that keep nothing but the status of an object.
use datafuse_operator.Prelude.{Option, some, ◌∷◌, none, [], refl, inl, ◌≡◌, subst}
use datafuse_operator.Go.Result.{GoError, ok, err, external, ok-injective}
use datafuse_operator.Api.Types.{
  Operator, ComputeGroup, ComputeGroupStatus, OperatorStatus, compute_group_deployed,
}
use datafuse_operator.Api.Defaults.{set_operator_default}
use datafuse_operator.Operator.Deps.{OperatorDeps, World, ADeployment}
use datafuse_operator.Operator.Noted.{IsAt}
use datafuse_operator.Operator.Groups.{process_new_operator}
use datafuse_operator.Operator.Named.{IsStatusStore}
use datafuse_operator.Operator.Cleaned.{IsWritten, process_group-IsWritten}
use datafuse_operator.Operator.Work.{process_group}
use datafuse_operator.Utils.Groups.{is_compute_group_created}
use datafuse_operator.Operator.Deployed.{IsOperatorStore, HasOneState}
use datafuse_operator.Operator.Restarted.{process_new_operator-HasOneState}
use datafuse_operator.Tests.Fixtures.{texts, apimachinery}
use datafuse_operator.Tests.Deployments.{group}
use datafuse_operator.Tests.Queues.{op}

abbrev keeping : (S : Type 0) → (ComputeGroup → S → S) → (Operator → S → S) → OperatorDeps
keeping S update_group update_operator = record {
  quantities = texts;
  meta = apimachinery;
  Cluster = S;
  group_by_key = λ _ _. ok none;
  get_deployment = λ _ _ n. err (external 404 n);
  get_service = λ _ _ n. err (external 404 n);
  create_deployment = λ ns d s. (ok d, s);
  update_deployment = λ ns d s. (ok d, s);
  delete_deployment = λ ns n s. (ok tt, s);
  create_service = λ ns v s. (ok v, s);
  create_group = λ ns g s. (ok (g, none), s);
  update_group = λ ns g s. (ok tt, update_group g s);
  update_operator = λ ns op s. (ok tt, update_operator op s);
  range = λ ks. ks;
}

-- The API server keeps the status of a group.
abbrev group_deps : OperatorDeps
group_deps = keeping ComputeGroupStatus (λ g _. g.status) (λ _ s. s)

-- The server answers with the deployment that was sent.
IsAt-sent :
    (d d' : ADeployment group_deps) → ok d ≡ ok d' → IsAt group_deps d.meta.namespace d.meta.name d'
IsAt-sent d d' sent =
    subst (IsAt group_deps d.meta.namespace d.meta.name) (ok-injective sent) (refl, refl)

group_store : IsStatusStore group_deps (λ s. s)
group_store = record {
  updates = λ ns g c. inl refl;
  create_deployment = λ ns d c. refl;
  update_deployment = λ ns d c. refl;
  create_service = λ ns s c. refl;
  gets = λ ns n c d got. cc;
  creates = λ ns d d' c sent. IsAt-sent d d' sent;
  scales = λ ns d d' c sent. IsAt-sent d d' sent;
}

-- The group was deployed once, and one of its workers is gone.
abbrev deployed : ComputeGroup
deployed = record group {
  status = record group.status {
    ready_compute_workers = some (("default/gone", "Ready") ∷ []);
    status = compute_group_deployed;
  };
}

abbrev group_world : World group_deps
group_world = record { cluster = deployed.status; events = [] }

process_group-IsWritten_example :
    IsWritten group_deps group_world
      (is_compute_group_created deployed).1
      deployed.status
      (process_group group_deps deployed group_world).1.cluster
process_group-IsWritten_example =
    process_group-IsWritten group_deps (λ s. s) deployed group_world group_store

-- The API server keeps the status of an operator.
abbrev operator_deps : OperatorDeps
operator_deps = keeping OperatorStatus (λ _ s. s) (λ op _. op.status)

operator_store : IsOperatorStore operator_deps (λ s. s)
operator_store = record {
  updates = λ ns op c. inl refl;
  create_group = λ ns g c. refl;
  indexed = λ c ns n g none_there. cc;
  creates = λ ns g g' e c sent.
      subst
        (λ (p : ComputeGroup × Option GoError).
          (p.0.meta.namespace ≡ g.meta.namespace) × (p.0.meta.name ≡ g.meta.name))
        (ok-injective sent) (refl, refl);
}

abbrev operator_world : World operator_deps
operator_world = record { cluster = op.status; events = [] }

process_new_operator-HasOneState_example :
    HasOneState op.status
      (set_operator_default op)
      (process_new_operator operator_deps op operator_world).1.cluster
process_new_operator-HasOneState_example =
    process_new_operator-HasOneState operator_deps (λ s. s) op operator_world operator_store
