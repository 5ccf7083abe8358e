-- ===== src/Operator/Unneeded.antt =====
-- Which deployments handleUnneededDeployments of pkg/controllers/operator/operator_controller.go
-- deletes.
use datafuse_operator.Prelude.{
  String, Bool, not, ◌&&◌, Option, is_some, List, [], ◌∷◌, contains, ◌==◌, eq_iff, ◌≡◌, refl, arith,
  Option-cases, inl, inr,
}
use datafuse_operator.Go.Map.{Entries, lookup, keys}
use datafuse_operator.Go.Result.{GoError, ok}
use datafuse_operator.Go.Exec.{error_value}
use datafuse_operator.Api.Types.{ComputeGroup, ComputeSetSpec}
use datafuse_operator.Operator.Deps.{OperatorDeps, World}
use datafuse_operator.Operator.Events.{
  build_named_spec, delete_unneeded, handle_unneeded_deployments,
}

contains-keys :
    {V : Type 0} (m : Entries V) (k : String) → contains (keys m) k ≡ is_some (lookup k m)
unfolding keys lookup
contains-keys [] k = refl
contains-keys ((j, v) ∷ m) k = ground (arith, contains-keys m k, eq_iff j k)

module _ (D : OperatorDeps) where
  -- The deployments of the cluster, by namespace and name: Delete answers, and then the deployment is
  -- not there, and every other one is as before. A `range` over a map visits its keys.
  pub record IsDeleting (exists : D.Cluster → String → String → Bool) : Type 0 where
    pub answers :
        (c : D.Cluster) (ns n : String)
        → (e : Option GoError) × (error_value (D.delete_deployment ns n c).0 ≡ ok e)
    pub deletes :
        (c : D.Cluster) (ns n ns' n' : String)
        → exists (D.delete_deployment ns n c).1 ns' n'
          ≡ (not ((ns == ns') && (n == n')) && exists c ns' n')
    pub visits : (ks : List String) (k : String) → contains (D.range ks) k ≡ contains ks k

  module _ (exists : D.Cluster → String → String → Bool) (api : IsDeleting exists) where
    delete_unneeded_lem :
        (ns : String) (news : Entries ComputeSetSpec) (olds : List String) (w : World D)
        → ((delete_unneeded D ns news olds w).0 ≡ ok tt)
          × ((ns' n' : String)
              → exists (delete_unneeded D ns news olds w).1.cluster ns' n' ≡ (
                  not ((ns == ns') && (contains olds n' && not (is_some (lookup n' news))))
                  && exists w.cluster ns' n'))
    unfolding delete_unneeded
    delete_unneeded_lem ns news [] w = (refl, λ ns' n'. ground arith)
    delete_unneeded_lem ns news (n ∷ olds) w = elim (Option-cases (lookup n news)) [
      | inl gone ↦
          let (e, answered) = api.answers w.cluster ns n in
          let (ends, left) =
            delete_unneeded_lem ns news olds
              (record w { cluster = (D.delete_deployment ns n w.cluster).1 }) in
          (
            rw (gone, delete_unneeded) (rw answered ends),
            λ ns' n'.
                rw (gone, delete_unneeded)
                  (rw answered (
                    ground
                      (arith, left ns' n', api.deletes w.cluster ns n ns' n', eq_iff n n', gone))),
          )
      | inr (_, kept) ↦
          let (ends, left) = delete_unneeded_lem ns news olds w in
          (
            rw (kept, delete_unneeded) ends,
            λ ns' n'. rw (kept, delete_unneeded) (ground (arith, left ns' n', eq_iff n n', kept)),
          )
    ]

    -- When the names of both versions of a compute group can be told, Delete answers and deletes
    -- what it names, and a range over a map visits its keys: handleUnneededDeployments ends without
    -- an error and deletes just the deployments in the old version's namespace whose names the old
    -- version has and the new one has not.
    pub handle_unneeded_deployments_lem :
        (old new : ComputeGroup) (olds news : Entries ComputeSetSpec) (w : World D)
        → build_named_spec old ≡ ok olds
        → build_named_spec new ≡ ok news
        → ((handle_unneeded_deployments D old new w).0 ≡ ok tt)
          × ((ns n : String)
              → exists (handle_unneeded_deployments D old new w).1.cluster ns n ≡ (
                  not (
                    (old.meta.namespace == ns)
                    && (is_some (lookup n olds) && not (is_some (lookup n news))))
                  && exists w.cluster ns n))
    unfolding handle_unneeded_deployments
    handle_unneeded_deployments_lem old new olds news w h h' =
        let (ends, left) = delete_unneeded_lem old.meta.namespace news (D.range (keys olds)) w in
        (
          rw (h, h') ends,
          λ ns n. rw (h, h') (rw (← contains-keys olds n, ← api.visits (keys olds) n) (left ns n)),
        )
