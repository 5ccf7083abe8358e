-- ===== src/Utils/Resources.antt =====
-- The CPU that a container requests and may use.
use datafuse_operator.Prelude.{String, false, Option, none, some, ◌≡◌, arith}
use datafuse_operator.Go.Int.{ℤ, pos, negsuc, ◌+ℤ◌, scale, int64, IsInt32}
use datafuse_operator.Go.Result.{ok, deref, bind-eq-ok}
use datafuse_operator.Kube.Objects.{ResourceRequirements}
use datafuse_operator.Kube.Meta.{Quantities}
use datafuse_operator.Api.Types.{ComputeInstanceSpec}
use datafuse_operator.Utils.Pods.{get_milli_cpu, fill_blank, make_resource_requirements}

-- For any number of cores of int32 the milli CPUs are a thousand for each and 300 more, as integers:
-- nothing wraps around in int64.
get_milli_cpu_exact :
    (cores : ℤ) → IsInt32 cores → get_milli_cpu (some cores) ≡ scale cores 1000 +ℤ pos 300
unfolding get_milli_cpu scale ◌+ℤ◌ int64
get_milli_cpu_exact (pos n) h = ground arith
get_milli_cpu_exact (negsuc n) h = ground arith

module _ (Q : Quantities) where
  open Q use {Quantity, less}

  fill_blank_bound :
      ((q : Quantity) → less q q ≡ false)
      → (limit : Option String) (quant filled : Quantity) → fill_blank Q limit quant ≡ ok filled
      → less filled quant ≡ false
  unfolding fill_blank
  fill_blank_bound irrefl none quant filled h = ground (arith, irrefl quant)
  fill_blank_bound irrefl (some text) quant filled h =
      let (parsed, _, e) = bind-eq-ok (Q.must_parse text) _ h in ground (arith, e, irrefl quant)

  -- When no quantity is less than itself, and the resources of an instance can be made: whatever
  -- limit the instance names, the CPU limit of the container is not less than the CPU that it
  -- requests, which is that of getMilliCPU.
  pub cpu_limit_covers_request :
      ((q : Quantity) → less q q ≡ false)
      → (spec : ComputeInstanceSpec) (r : ResourceRequirements Quantity)
      → make_resource_requirements Q spec ≡ ok r
      → (less r.limits.cpu r.requests.cpu ≡ false)
        × (r.requests.cpu ≡ Q.new_milli_quantity (get_milli_cpu spec.cores))
  unfolding make_resource_requirements
  cpu_limit_covers_request irrefl spec r h =
      let cpu = Q.new_milli_quantity (get_milli_cpu spec.cores) in
      let (_, _, h₁) = bind-eq-ok (deref spec.memory) _ h in
      let (_, _, h₂) = bind-eq-ok (Q.must_parse _) _ h₁ in
      let (limit, filled, h₃) = bind-eq-ok (fill_blank Q spec.core_limit cpu) _ h₂ in
      let (_, _, h₄) = bind-eq-ok (deref spec.memory_limit) _ h₃ in
      let (_, _, h₅) = bind-eq-ok (Q.must_parse _) _ h₄ in
      ground (arith, h₅, fill_blank_bound irrefl spec.core_limit cpu limit filled)
