-- ===== src/Operator/Noted.antt =====
-- What updateComputeGroupStatus notes of one deployment in the status of a compute group, said by the
-- entries of the status (pkg/controllers/operator/operator_controller.go).
use datafuse_operator.Prelude.{
  ℕ, ◌+◌, String, ◌<>◌, Bool, true, false, Option, none, some, List, [], ◌∷◌, ◌==◌, ◌≡◌, ◌⊎◌, refl,
  if◌then◌else◌, ap, ◌∙◌,
}
use datafuse_operator.Go.Int.{pos}
use datafuse_operator.Go.Text.{show_int}
use datafuse_operator.Go.Map.{GoMap, get, put, get-put}
use datafuse_operator.Api.Types.{
  ComputeGroup, ComputeSetSpec, ComputeGroupStatus, compute_group_deployed,
  compute_instance_ready_state,
}
use datafuse_operator.Operator.Deps.{OperatorDeps, ADeployment, items}
use datafuse_operator.Operator.Sets.{ready_group, fill_name}

-- The name of the deployment of one of the workers, from worker number i.
unfoldable pub IsWorkerName : String → ℕ → List (Option ComputeSetSpec) → String → Type 0
IsWorkerName group i [] name = ⊥
IsWorkerName group i (none ∷ workers) name = ⊥
IsWorkerName group i (some set ∷ workers) name =
    (name ≡ fill_name set.instance_spec (group <> "-worker" <> show_int (pos i)))
    ⊎ IsWorkerName group (i + 1) workers name

-- The name of the deployment of the leaders, or of one of the workers, of a compute group.
abbrev pub IsSetName : ComputeGroup → Bool → String → Type 0
IsSetName cg true name =
    (set : ComputeSetSpec) × (cg.spec.compute_leaders ≡ some set)
    × (name ≡ fill_name set.instance_spec (cg.meta.name <> "-leader"))
IsSetName cg false name = IsWorkerName cg.meta.name 0 (items cg.spec.compute_workers) name

-- A map that says `READY` at one key and at each other key what the old one says.
abbrev pub IsReadyAt : String → GoMap String → GoMap String → Type 0
IsReadyAt key old new =
    (k : String) → get k new ≡ (if key == k then some compute_instance_ready_state else get k old)

-- The status of the group with the leaders' deployment of a name noted, which makes the group `Ready`,
-- or with a worker's; all else is as the group has it.
abbrev pub IsNoted : ComputeGroup → Bool → String → ComputeGroupStatus → Type 0
IsNoted cg true name new =
    IsReadyAt (cg.meta.namespace <> "/" <> name) cg.status.ready_compute_leaders
      new.ready_compute_leaders
    × (new.ready_compute_workers ≡ cg.status.ready_compute_workers)
    × (new.status ≡ compute_group_deployed)
    × (new.group_service_status ≡ cg.status.group_service_status)
IsNoted cg false name new =
    IsReadyAt (cg.meta.namespace <> "/" <> name) cg.status.ready_compute_workers
      new.ready_compute_workers
    × (new.ready_compute_leaders ≡ cg.status.ready_compute_leaders)
    × (new.status ≡ cg.status.status)
    × (new.group_service_status ≡ cg.status.group_service_status)

-- The status that was there, or the group's own with the deployment of one of its sets noted.
abbrev pub HasOneUpdate : ComputeGroupStatus → ComputeGroup → ComputeGroupStatus → Type 0
HasOneUpdate old cg new =
    (new ≡ old)
    ⊎ ((is_leader : Bool) × (name : String) × IsSetName cg is_leader name
        × IsNoted cg is_leader name new)

module _ (D : OperatorDeps) where
  -- A deployment of a namespace and a name.
  abbrev pub IsAt : String → String → ADeployment D → Type 0
  IsAt ns n d = (d.meta.namespace ≡ ns) × (d.meta.name ≡ n)

  put-IsReadyAt :
      (ns n : String) (d : ADeployment D) (old : GoMap String)
      → IsAt ns n d
      → IsReadyAt
          (ns <> "/" <> n)
          old
          (put (d.meta.namespace <> "/" <> d.meta.name) compute_instance_ready_state old)
  put-IsReadyAt ns n d old (placed, named) k =
      get-put (d.meta.namespace <> "/" <> d.meta.name) k compute_instance_ready_state old
      ∙ ap
          (λ ns'.
            if (ns' <> "/" <> d.meta.name) == k
            then some compute_instance_ready_state
            else get k old)
          placed
      ∙ ap (λ n'. if (ns <> "/" <> n') == k then some compute_instance_ready_state else get k old)
          named

  -- What updateComputeGroupStatus writes notes the deployment that it is given.
  pub ready_group-IsNoted :
      (cg : ComputeGroup) (is_leader : Bool) (name : String) (d : ADeployment D)
      → IsAt cg.meta.namespace name d
      → IsNoted cg is_leader name (ready_group D cg d is_leader).status
  unfolding ready_group
  ready_group-IsNoted cg true name d at =
      (put-IsReadyAt cg.meta.namespace name d cg.status.ready_compute_leaders at, refl, refl, refl)
  ready_group-IsNoted cg false name d at =
      (put-IsReadyAt cg.meta.namespace name d cg.status.ready_compute_workers at, refl, refl, refl)
