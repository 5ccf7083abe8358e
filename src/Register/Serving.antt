-- ===== src/Register/Serving.antt =====
-- What a store and the order of a `range` promise, and what the loops of ProcessLeader keep.
use datafuse_operator.Prelude.{
  String, true, false, some, List, [], ◌∷◌, ◌++◌, contains, All, map, eq_refl, ◌≡◌, refl, arith,
  Option-cases, inl, inr,
}
use datafuse_operator.Go.Map.{has, NodupKeys, Entries, lookup, erase}
use datafuse_operator.Go.Result.{ok}
use datafuse_operator.Constants
use datafuse_operator.Register.Nodes.{is_group_worker, pod_key}
use datafuse_operator.Register.Listing.{
  RegisterDeps, APod, PodStore, RegisterController, all_ns_store, ready_pods, list_ready_workers,
}
use datafuse_operator.Register.Process.{stored_pod, needed_to_add, needed_to_remove}
use datafuse_operator.Register.Cluster.{IsServable}
use datafuse_operator.Register.Diff.{IsKeyed, IsStored}

-- A list whose elements give no key is empty.
pub nil_of_no_keys :
    {A : Type 0} (key : A → String) (xs : List A)
    → ((k : String) → contains (map key xs) k ≡ false)
    → xs ≡ []
nil_of_no_keys key [] h = refl
nil_of_no_keys key (x ∷ xs) h = ground (arith, h (key x), eq_refl (key x))

module _ (D : RegisterDeps) where
  -- A `range` over a map visits each entry once, in some order.
  pub record IsRange : Type 1 where
    pub visits : (P : String × APod D → Type 0) (m : Entries (APod D)) → All P m → All P (D.range m)
    pub same_keys : (m : Entries (APod D)) (k : String) → has (D.range m) k ≡ has m k
    pub once : (m : Entries (APod D)) → NodupKeys m → NodupKeys (D.range m)

  abbrev pub ready_workers : PodStore D → List (APod D)
  ready_workers store = ready_pods D (is_group_worker D.quantities) store.list

  -- The controller watches all namespaces, its store knows a pod by its key, and the pods say how
  -- they are reached.
  pub record IsServing (rc : RegisterController D) (store : PodStore D) : Type 0 where
    pub all_ns : rc.all_ns ≡ true
    pub informed : lookup Constants.namespace_all rc.pod_informers ≡ some store
    pub sound :
        (k : String) (p : APod D)
        → stored_pod D store k ≡ some p
        → (pod_key D.quantities p ≡ k) × IsServable D p
    pub servable : All (IsServable D) (ready_workers store)

  abbrev pub IsServableEntry : String × APod D → Type 0
  IsServableEntry (_, p) = IsServable D p

  pub IsServable-needed_to_add :
      (existed : Entries (APod D)) (ws : List (APod D))
      → All (IsServable D) ws
      → All (IsServable D) (needed_to_add D existed ws)
  unfolding needed_to_add
  IsServable-needed_to_add existed [] _ = tt
  IsServable-needed_to_add existed (w ∷ ws) (h, hs) =
      elim (Option-cases (lookup (pod_key D.quantities w) existed)) [
        | inl e ↦ rw (e, needed_to_add) (h, IsServable-needed_to_add existed ws hs)
        | inr (_, e) ↦ rw (e, needed_to_add) (IsServable-needed_to_add existed ws hs)
      ]

  pub IsServable-needed_to_remove :
      (helper m : Entries (APod D))
      → All IsServableEntry m
      → All (IsServable D) (needed_to_remove D helper m)
  unfolding needed_to_remove
  IsServable-needed_to_remove helper [] _ = tt
  IsServable-needed_to_remove helper ((k, p) ∷ m) (h, hs) = elim (Option-cases (lookup k helper)) [
    | inl e ↦ rw (e, needed_to_remove) (h, IsServable-needed_to_remove helper m hs)
    | inr (_, e) ↦ rw (e, needed_to_remove) (IsServable-needed_to_remove (erase k helper) m hs)
  ]

  pub All-snoc :
      (ps : List (APod D)) (p : APod D)
      → All (IsServable D) ps
      → IsServable D p
      → All (IsServable D) (ps ++ p ∷ [])
  All-snoc [] p _ h = (h, tt)
  All-snoc (q ∷ ps) p (g, gs) h = (g, All-snoc ps p gs h)

  module _ (rc : RegisterController D) (store : PodStore D) (serving : IsServing rc store) where
    pub IsKeyed-of-IsStored : (m : Entries (APod D)) → All (IsStored D store) m → All (IsKeyed D) m
    IsKeyed-of-IsStored [] _ = tt
    IsKeyed-of-IsStored ((k, p) ∷ m) (h, hs) = ((serving.sound k p h).0, IsKeyed-of-IsStored m hs)

    pub IsServable-of-IsStored :
        (m : Entries (APod D)) → All (IsStored D store) m → All IsServableEntry m
    IsServable-of-IsStored [] _ = tt
    IsServable-of-IsStored ((k, p) ∷ m) (h, hs) =
        ((serving.sound k p h).1, IsServable-of-IsStored m hs)

    pub all_ns_store_lem : all_ns_store D rc ≡ ok store
    unfolding all_ns_store
    all_ns_store_lem = rw (serving.informed, all_ns_store)

    pub list_ready_workers_lem :
        (group_key : String) → list_ready_workers D rc group_key ≡ ok (ready_workers store)
    unfolding list_ready_workers
    list_ready_workers_lem group_key = rw (all_ns_store_lem, list_ready_workers) (rw serving.all_ns)
