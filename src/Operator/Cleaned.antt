-- ===== src/Operator/Cleaned.antt =====
-- The status of a compute group behind processNewComputeGroup or processUpdatedComputeGroup, whichever
-- its state asks for (pkg/controllers/operator/operator_controller.go).
use datafuse_operator.Prelude.{
  Bool, true, false, ◌≡◌, ◌⊎◌, refl, inl, inr, if◌then◌else◌, subst, sym,
}
use datafuse_operator.Go.Result.{Result, ok}
use datafuse_operator.Go.Exec.{attempt}
use datafuse_operator.Go.Keeps.{state-bind}
use datafuse_operator.Api.Types.{ComputeGroup, ComputeGroupStatus}
use datafuse_operator.Utils.Groups.{is_compute_group_created}
use datafuse_operator.Operator.Deps.{OperatorDeps, World, call, cached}
use datafuse_operator.Operator.Sets.{process_new_compute_group}
use datafuse_operator.Operator.Updates.{without_gone, drop_gone_map, process_updated_compute_group}
use datafuse_operator.Operator.Work.{process_group}
use datafuse_operator.Operator.Noted.{HasOneUpdate}
use datafuse_operator.Operator.Named.{IsStatusStore}
use datafuse_operator.Operator.Overwritten.{process_new_compute_group-HasOneUpdate}

module _ (D : OperatorDeps) where
  -- The status of the copy from which processUpdatedComputeGroup took the instances that are gone.
  abbrev pub IsCleaned : World D → ComputeGroup → ComputeGroupStatus → Type 0
  IsCleaned w cg new =
      (copy : ComputeGroup) × ((without_gone D cg w).0 ≡ ok copy) × (new ≡ copy.status)

  without_gone-reads : (cg : ComputeGroup) (w : World D) → (without_gone D cg w).1 ≡ w
  unfolding without_gone
  without_gone-reads cg w =
      state-bind (λ v. v ≡ w) (cached D (λ c. drop_gone_map D c cg.status.ready_compute_leaders)) _
        w refl
        (λ leaders _.
          state-bind (λ v. v ≡ w)
            (cached D (λ c. drop_gone_map D c cg.status.ready_compute_workers)) _ w refl
            (λ workers _. refl))

  either :
      (P : World D → Type 0) (b : Bool) (x y : Result (Unit {0}) × World D)
      → P x.1
      → P y.1
      → P (if b then x else y).1
  either P true x y first second = first
  either P false x y first second = second

  -- The status before, the group's own with one deployment noted, or the cleaned one.
  abbrev pub IsWritten : World D → ComputeGroup → ComputeGroupStatus → ComputeGroupStatus → Type 0
  IsWritten w cg old new = HasOneUpdate old cg new ⊎ IsCleaned w cg new

  module _ (stored : D.Cluster → ComputeGroupStatus) (store : IsStatusStore D stored)
      (cg : ComputeGroup) (w : World D) where
    abbrev Here : World D → Type 0
    Here v = IsWritten w cg (stored w.cluster) (stored v.cluster)

    -- A sync behind a state where that holds.
    synced-IsWritten : (v : World D) → Here v → Here (process_new_compute_group D cg v).1
    synced-IsWritten v h =
        elim (process_new_compute_group-HasOneUpdate D stored store (stored v.cluster) cg v refl) [
          | inl same ↦ subst (IsWritten w cg (stored w.cluster)) (sym same) h
          | inr ready ↦ inl (inr ready)
        ]

    unchanged : Here (without_gone D cg w).1
    unchanged = subst Here (sym (without_gone-reads cg w)) (inl (inl refl))

    cleaned :
        (copy : ComputeGroup)
        → (without_gone D cg w).0 ≡ ok copy
        → Here (call D (D.update_group cg.meta.namespace copy) (without_gone D cg w).1).1
    cleaned copy e = elim (store.updates cg.meta.namespace copy (without_gone D cg w).1.cluster) [
      | inl written ↦ inr (copy, e, written)
      | inr same ↦ subst (IsWritten w cg (stored w.cluster)) (sym same) unchanged
    ]

    updated-IsWritten : Here (process_updated_compute_group D cg w).1
    unfolding process_updated_compute_group
    updated-IsWritten = either Here _ _ _ (synced-IsWritten w (inl (inl refl))) (
        state-bind Here (without_gone D cg) _ w unchanged (λ copy e.
          state-bind Here (attempt (call D (D.update_group cg.meta.namespace copy)))
            (λ _. process_new_compute_group D cg) (without_gone D cg w).1 (cleaned copy e)
            (λ _ _. synced-IsWritten _ (cleaned copy e))))

  -- Let every update of a compute group store its status or change nothing, the calls for deployments
  -- and services leave the status, and the deployments that the cache and the server give have the
  -- namespaces and names that they were asked for. However a compute group is processed, as a new one
  -- or as an updated one, and whatever fails, the status that is stored behind it is the one before, or
  -- the copy without the instances that are gone, or the one that the group came with and in which just
  -- one deployment of its sets is noted: under its namespace and the name of the leaders or of a worker,
  -- that map says `READY`; it says of all other keys what it said, the other map is the same, and the
  -- leaders make the group `Ready`.
  pub process_group-IsWritten :
      (stored : D.Cluster → ComputeGroupStatus) (cg : ComputeGroup) (w : World D)
      → IsStatusStore D stored
      → IsWritten w
          (is_compute_group_created cg).1
          (stored w.cluster)
          (stored (process_group D cg w).1.cluster)
  unfolding process_group
  process_group-IsWritten stored cg w store =
      let op = (is_compute_group_created cg).1 in
      either (λ v. IsWritten w op (stored w.cluster) (stored v.cluster)) _ _ _
        (inl (process_new_compute_group-HasOneUpdate D stored store (stored w.cluster) op w refl))
        (updated-IsWritten stored store op w)
