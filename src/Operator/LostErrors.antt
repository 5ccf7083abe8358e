-- ===== src/Operator/LostErrors.antt =====
-- What becomes of the errors of processNewOperator and processNewComputeGroup in
-- pkg/controllers/operator/operator_controller.go, where the result of multierr.Append is not used.
use datafuse_operator.Prelude.{
  ℕ, String, ◌+◌, if◌then◌else◌, Bool, true, false, Option, none, some, List, [], ◌∷◌, ◌≡◌, ◌≢◌,
  inl, inr, arith, Option-cases,
}
use datafuse_operator.Go.Result.{Result, ok, err, panic}
use datafuse_operator.Go.Exec.{Exec, attempt, error_value, continue, ◌>>◌}
use datafuse_operator.Kube.Queue.{WorkQueue, error_handler}
use datafuse_operator.Api.Types.{Operator, ComputeGroup, ComputeGroupSpec, ComputeSetSpec}
use datafuse_operator.Api.Defaults.{set_operator_default}
use datafuse_operator.Utils.Groups.{is_operator_created, is_compute_group_created}
use datafuse_operator.Operator.Deps.{OperatorDeps, World, call, items}
use datafuse_operator.Operator.Groups.{sync_group, sync_groups, process_new_operator}
use datafuse_operator.Operator.Sets.{sync_compute_group, sync_workers, process_new_compute_group}
use datafuse_operator.Operator.Updates.{
  is_gone, drop_gone, drop_gone_map, without_gone, process_updated_compute_group,
}
use datafuse_operator.Go.Map.{GoMap, Entries, erase, keys}
use datafuse_operator.Operator.Events.{GroupObject, group_pointer}
use datafuse_operator.Operator.Work.{
  OperatorObject, operator_pointer, finish, process_operator_object, process_group,
  process_group_object,
}

-- No error comes out: the end is without one, or it is a panic.
abbrev pub NoError {ℓ} : {A : Type ℓ} → Result A → Type 0
NoError (ok _) = Unit
NoError (err _) = ⊥
NoError panic = Unit

module _ {S : Type 0} where
  NoError-continue :
      {A B : Type 0} (r : Result A) (k : Exec S B) (s : S)
      → NoError (k s).0
      → NoError (continue (error_value r) (λ _. k) s).0
  NoError-continue (ok _) k s h = h
  NoError-continue (err _) k s h = h
  NoError-continue panic k s h = tt

  NoError-bind :
      {A B : Type 0} (r : Result A) (f : A → Exec S B) (s : S)
      → NoError r
      → ((a : A) (t : S) → NoError (f a t).0)
      → NoError (continue r f s).0
  NoError-bind (ok a) f s _ h = h a s
  NoError-bind (err _) f s e h = e
  NoError-bind panic f s _ h = tt

  NoError-if :
      {A : Type 0} (b : Bool) (x y : Result A × S)
      → NoError x.0
      → NoError y.0
      → NoError (if b then x else y).0
  NoError-if true x y h g = h
  NoError-if false x y h g = g

  NoError-attempt :
      {A B : Type 0} (m : Exec S A) (k : Exec S B) (s : S)
      → ((t : S) → NoError (k t).0)
      → NoError ((attempt m >> k) s).0
  NoError-attempt m k s h = NoError-continue (m s).0 k (m s).1 (h (m s).1)

module _ (D : OperatorDeps) where
  NoError-sync_groups :
      (op : Operator) (groups : List (Option ComputeGroupSpec)) (w : World D)
      → NoError (sync_groups D op groups w).0
  unfolding sync_groups
  NoError-sync_groups op [] w = tt
  NoError-sync_groups op (g ∷ groups) w =
      NoError-attempt (sync_group D op g) _ w (NoError-sync_groups op groups)

  -- processNewOperator never answers with an error, whatever the caches and the API server say.
  pub process_new_operator-NoError :
      (op : Operator) (w : World D) → NoError (process_new_operator D op w).0
  unfolding process_new_operator
  process_new_operator-NoError op w =
      NoError-sync_groups (set_operator_default op)
        (items (set_operator_default op).spec.compute_groups) w

  NoError-sync_workers :
      (cg : ComputeGroup) (i : ℕ) (workers : List (Option ComputeSetSpec)) (w : World D)
      → NoError (sync_workers D cg i workers w).0
  unfolding sync_workers
  NoError-sync_workers cg i [] w = tt
  NoError-sync_workers cg i (none ∷ workers) w = tt
  NoError-sync_workers cg i (some worker ∷ workers) w =
      NoError-attempt (sync_compute_group D cg worker _ false) _ w
        (NoError-sync_workers cg (i + 1) workers)

  NoError-process_new_compute_group :
      (cg : ComputeGroup) (w : World D) → NoError (process_new_compute_group D cg w).0
  unfolding process_new_compute_group
  NoError-process_new_compute_group cg w = elim (Option-cases cg.spec.compute_leaders) [
    | inl e ↦ rw (e, process_new_compute_group) tt
    | inr (leaders, e) ↦
        rw (e, process_new_compute_group)
          (NoError-attempt (sync_compute_group D cg leaders _ true) _ w
            (NoError-sync_workers cg 0 (items cg.spec.compute_workers)))
  ]

  NoError-is_gone : (c : D.Cluster) (key : String) → NoError (is_gone D c key)
  unfolding is_gone
  NoError-is_gone c key = ground arith

  NoError-drop_gone :
      (c : D.Cluster) (keys : List String) (m : Entries String) → NoError (drop_gone D c keys m)
  unfolding drop_gone
  NoError-drop_gone c [] m = tt
  NoError-drop_gone c (key ∷ keys) m = ground (
    arith,
    NoError-is_gone c key,
    NoError-drop_gone c keys m,
    NoError-drop_gone c keys (erase key m),
  )

  NoError-drop_gone_map : (c : D.Cluster) (m : GoMap String) → NoError (drop_gone_map D c m)
  unfolding drop_gone_map
  NoError-drop_gone_map c none = tt
  NoError-drop_gone_map c (some m) = ground (arith, NoError-drop_gone c (D.range (keys m)) m)

  NoError-without_gone : (cg : ComputeGroup) (w : World D) → NoError (without_gone D cg w).0
  unfolding without_gone
  NoError-without_gone cg w =
      NoError-bind (drop_gone_map D w.cluster cg.status.ready_compute_leaders) _ w
        (NoError-drop_gone_map w.cluster cg.status.ready_compute_leaders)
        (λ _ t.
          NoError-bind (drop_gone_map D t.cluster cg.status.ready_compute_workers) _ t
            (NoError-drop_gone_map t.cluster cg.status.ready_compute_workers) (λ _ _. tt))

  NoError-process_updated_compute_group :
      (cg : ComputeGroup) (w : World D) → NoError (process_updated_compute_group D cg w).0
  unfolding process_updated_compute_group
  NoError-process_updated_compute_group cg w =
      NoError-if _ _ _ (NoError-process_new_compute_group cg w) (
        NoError-bind (without_gone D cg w).0 _ _ (NoError-without_gone cg w) (λ copy t.
          NoError-attempt (call D (D.update_group cg.meta.namespace copy)) _ t
            (NoError-process_new_compute_group cg)))

  -- The handler of a compute group answers without an error, whatever its sync did.
  pub process_group-NoError : (cg : ComputeGroup) (w : World D) → NoError (process_group D cg w).0
  unfolding process_group
  process_group-NoError cg w =
      NoError-if _ _ _ (NoError-process_new_compute_group (is_compute_group_created cg).1 w)
        (NoError-process_updated_compute_group (is_compute_group_created cg).1 w)

  -- An operator that is taken from the queue is forgotten and the answer is true, unless the
  -- handler panics: an error of its groups never puts it back.
  pub process_operator_object-forgets :
      (Q : WorkQueue OperatorObject) (op : Operator) (q : Q.State) (w : World D)
      → (process_operator_object D Q (operator_pointer op) q w).0 ≢ panic
      → process_operator_object D Q (operator_pointer op) q w ≡ (
        ok true,
        Q.forget (operator_pointer op) q,
        (process_new_operator D (is_operator_created op).1 w).1,
      )
  unfolding process_operator_object finish error_handler
  process_operator_object-forgets Q op q w h =
      ground (arith, process_new_operator-NoError (is_operator_created op).1 w)

  -- A compute group that is taken from the queue is forgotten and the answer is true, unless the
  -- handler panics: an error in the sync of a leader, of a worker or of the status never puts it
  -- back.
  pub process_group_object-forgets :
      (Q : WorkQueue GroupObject) (cg : ComputeGroup) (q : Q.State) (w : World D)
      → (process_group_object D Q (group_pointer cg) q w).0 ≢ panic
      → process_group_object D Q (group_pointer cg) q w
        ≡ (ok true, Q.forget (group_pointer cg) q, (process_group D cg w).1)
  unfolding process_group_object finish error_handler
  process_group_object-forgets Q cg q w h = ground (arith, process_group-NoError cg w)
