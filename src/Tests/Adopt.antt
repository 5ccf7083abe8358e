-- ===== src/Tests/Adopt.antt =====
-- syncGroup2 without a compute group in the cache.
use datafuse_operator.Prelude.{String, none, some, ◌≡◌, refl}
use datafuse_operator.Go.Exec.{pure, ◌>>=◌}
use datafuse_operator.Api.Types.{ComputeGroupSpec}
use datafuse_operator.Operator.Deps.{call}
use datafuse_operator.Operator.Groups.{sync_group, adopt_group, desired_group}
use datafuse_operator.Operator.Adopt.{sync_group-misses}
use datafuse_operator.Tests.Fixtures.{two_replicas, apimachinery-IsLawful}
use datafuse_operator.Tests.Deployments.{deps}
use datafuse_operator.Tests.Queues.{op, quiet}

abbrev spec_in : String → ComputeGroupSpec
spec_in namespace = record {
  compute_leaders = some two_replicas;
  compute_workers = none;
  name = "group";
  namespace = namespace;
}

sync_group-misses_example :
    sync_group deps op (some (spec_in "")) quiet
    ≡ (call deps (deps.create_group "default" (desired_group deps op (spec_in "")))
          >>= (λ r. pure (some r.0, r.1))
          >>= adopt_group deps op)
        quiet
sync_group-misses_example =
    sync_group-misses deps op (spec_in "") quiet apimachinery-IsLawful (λ name. refl) refl
