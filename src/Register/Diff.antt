-- ===== src/Register/Diff.antt =====
-- The comparison in ProcessLeader: which pods it adds and removes, by the keys of the pods.
use datafuse_operator.Prelude.{
  String, not, ◌&&◌, ◌||◌, some, is_some, List, [], ◌∷◌, ◌++◌, contains, ◌==◌, eq_iff, All, ◌≡◌,
  refl, arith, Option-cases, Bool-cases, inl, inr,
}
use datafuse_operator.Go.Map.{
  has, has-insert, NodupKeys, Entries, lookup, insert, erase, lookup-insert, lookup-erase,
}
use datafuse_operator.Register.Config.{ClusterNodeRequest}
use datafuse_operator.Register.Nodes.{pod_key}
use datafuse_operator.Register.Listing.{RegisterDeps, APod, PodStore}
use datafuse_operator.Register.Process.{
  stored_pod, split_workers, needed_to_add, remove_helper, needed_to_remove,
}
use datafuse_operator.Register.Cluster.{listed, pod_keys}

module _ (D : RegisterDeps) where
  -- An entry's key is that of its pod.
  abbrev pub IsKeyed : String × APod D → Type 0
  IsKeyed (k, p) = pod_key D.quantities p ≡ k

  pub has-needed_to_add :
      (existed : Entries (APod D)) (workers : List (APod D)) (k : String)
      → contains (pod_keys D (needed_to_add D existed workers)) k
        ≡ (contains (pod_keys D workers) k && not (has existed k))
  unfolding needed_to_add
  has-needed_to_add existed [] k = refl
  has-needed_to_add existed (w ∷ workers) k =
      ground (arith, has-needed_to_add existed workers k, eq_iff (pod_key D.quantities w) k)

  pub has-remove_helper :
      (existed : Entries (APod D)) (workers : List (APod D)) (helper : Entries (APod D))
      (k : String)
      → has (remove_helper D existed workers helper) k
        ≡ (has helper k || (contains (pod_keys D workers) k && has existed k))
  unfolding remove_helper
  has-remove_helper existed [] helper k = ground arith
  has-remove_helper existed (w ∷ workers) helper k =
      let key = pod_key D.quantities w in
      ground (
        arith,
        has-remove_helper existed workers helper k,
        has-remove_helper existed workers (insert key w helper) k,
        lookup-insert key k w helper,
        eq_iff key k,
      )

  pub has-needed_to_remove :
      (helper m : Entries (APod D)) (k : String)
      → NodupKeys m
      → All IsKeyed m
      → contains (pod_keys D (needed_to_remove D helper m)) k ≡ (has m k && not (has helper k))
  unfolding needed_to_remove lookup
  has-needed_to_remove helper [] k _ _ = refl
  has-needed_to_remove helper ((j, p) ∷ m) k (fresh, u) (e, es) = ground (
    arith,
    has-needed_to_remove helper m k u es,
    has-needed_to_remove (erase j helper) m k u es,
    lookup-erase j k helper,
    eq_iff j k,
    eq_iff (pod_key D.quantities p) k,
  )

module _ {ℓ} {V : Type ℓ} where
  NodupKeys-insert : (k : String) (v : V) (m : Entries V) → NodupKeys m → NodupKeys (insert k v m)
  unfolding insert lookup
  NodupKeys-insert k v [] _ = (refl, tt)
  NodupKeys-insert k v ((j, w) ∷ m) (fresh, u) =
      ground (arith, NodupKeys-insert k v m u, lookup-insert k j v m, eq_iff j k, eq_iff k j)

  All-insert :
      (P : String × V → Type 0) (k : String) (v : V) (m : Entries V)
      → P (k, v)
      → All P m
      → All P (insert k v m)
  unfolding insert
  All-insert P k v [] h _ = (h, tt)
  All-insert P k v ((j, w) ∷ m) h (e, es) = elim (Bool-cases (j == k)) [
    | inl same ↦ rw same (h, es)
    | inr differ ↦ rw differ (e, All-insert P k v m h es)
  ]

listed-append :
    (nodes : List ClusterNodeRequest) (n : ClusterNodeRequest) (k : String)
    → listed (nodes ++ n ∷ []) k ≡ (listed nodes k || (n.name == k))
listed-append [] n k = ground arith
listed-append (m ∷ nodes) n k = ground (arith, listed-append nodes n k)

module _ (D : RegisterDeps) (store : PodStore D) where
  -- The pod of an entry is the one that the store has for its key.
  abbrev pub IsStored : String × APod D → Type 0
  IsStored (k, p) = stored_pod D store k ≡ some p

  pub has-split_workers :
      (workers : List ClusterNodeRequest) (existed : Entries (APod D))
      (gone : List ClusterNodeRequest) (k : String)
      → has (split_workers D store workers existed gone).0 k
        ≡ (has existed k || (listed workers k && is_some (stored_pod D store k)))
  unfolding split_workers
  has-split_workers [] existed gone k = ground arith
  has-split_workers (w ∷ workers) existed gone k = elim (Option-cases (stored_pod D store w.name)) [
    | inl e ↦
        rw (e, split_workers)
          (ground (arith, has-split_workers workers existed (gone ++ w ∷ []) k, eq_iff w.name k, e))
    | inr (p, e) ↦
        rw (e, split_workers)
          (ground (
            arith,
            has-split_workers workers (insert w.name p existed) gone k,
            has-insert w.name k p existed,
            eq_iff w.name k,
            e,
          ))
  ]

  pub gone-split_workers :
      (workers : List ClusterNodeRequest) (existed : Entries (APod D))
      (gone : List ClusterNodeRequest) (k : String)
      → listed (split_workers D store workers existed gone).1 k
        ≡ (listed gone k || (listed workers k && not (is_some (stored_pod D store k))))
  unfolding split_workers
  gone-split_workers [] existed gone k = ground arith
  gone-split_workers (w ∷ workers) existed gone k =
      elim (Option-cases (stored_pod D store w.name)) [
        | inl e ↦
            rw (e, split_workers)
              (ground (
                arith,
                gone-split_workers workers existed (gone ++ w ∷ []) k,
                listed-append gone w k,
                eq_iff w.name k,
                e,
              ))
        | inr (p, e) ↦
            rw (e, split_workers)
              (ground (
                arith,
                gone-split_workers workers (insert w.name p existed) gone k,
                eq_iff w.name k,
                e,
              ))
      ]

  pub NodupKeys-split_workers :
      (workers : List ClusterNodeRequest) (existed : Entries (APod D))
      (gone : List ClusterNodeRequest)
      → NodupKeys existed
      → NodupKeys (split_workers D store workers existed gone).0
  unfolding split_workers
  NodupKeys-split_workers [] existed gone u = u
  NodupKeys-split_workers (w ∷ workers) existed gone u =
      elim (Option-cases (stored_pod D store w.name)) [
        | inl e ↦ rw (e, split_workers) (NodupKeys-split_workers workers existed (gone ++ w ∷ []) u)
        | inr (p, e) ↦
            rw (e, split_workers)
              (NodupKeys-split_workers workers _ gone (NodupKeys-insert w.name p existed u))
      ]

  pub IsStored-split_workers :
      (workers : List ClusterNodeRequest) (existed : Entries (APod D))
      (gone : List ClusterNodeRequest)
      → All IsStored existed
      → All IsStored (split_workers D store workers existed gone).0
  unfolding split_workers
  IsStored-split_workers [] existed gone u = u
  IsStored-split_workers (w ∷ workers) existed gone u =
      elim (Option-cases (stored_pod D store w.name)) [
        | inl e ↦ rw (e, split_workers) (IsStored-split_workers workers existed (gone ++ w ∷ []) u)
        | inr (p, e) ↦
            rw (e, split_workers)
              (IsStored-split_workers workers _ gone (All-insert IsStored w.name p existed e u))
      ]
