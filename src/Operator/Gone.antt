-- ===== src/Operator/Gone.antt =====
-- What processUpdatedComputeGroup of pkg/controllers/operator/operator_controller.go takes off the
-- status of a group.
use datafuse_operator.Prelude.{
  String, Bool, true, false, ◌&&◌, ◌||◌, none, some, is_some, List, [], ◌∷◌, contains, eq_iff,
  if◌then◌else◌, ◌≡◌, refl, arith, Bool-cases, inl, inr,
}
use datafuse_operator.Go.Map.{GoMap, Entries, lookup, get, erase, keys, lookup-erase}
use datafuse_operator.Go.Result.{ok}
use datafuse_operator.Api.Types.{ComputeGroup, compute_group_pending}
use datafuse_operator.Operator.Deps.{OperatorDeps, World}
use datafuse_operator.Operator.Updates.{is_gone, drop_gone, drop_gone_map, without_gone}

abbrev pub any : (String → Bool) → List String → Bool
any test [] = false
any test (k ∷ ks) = test k || any test ks

module _ (D : OperatorDeps) (c : D.Cluster) (test : String → Bool) where
  drop_gone_lem :
      (ks : List String) (m : Entries String)
      → ((k : String) → contains ks k ≡ true → is_gone D c k ≡ ok (test k))
      → (left : Entries String) × (drop_gone D c ks m ≡ ok (left, any test ks))
        × ((k : String) → lookup k left ≡ (if contains ks k && test k then none else lookup k m))
  unfolding drop_gone
  drop_gone_lem [] m known = (m, refl, λ k. refl)
  drop_gone_lem (j ∷ ks) m known =
      let here : is_gone D c j ≡ ok (test j) = known j (ground (arith, eq_iff j j)) in
      let later : (k : String) → contains ks k ≡ true → is_gone D c k ≡ ok (test k) =
        λ k h. known k (ground (arith, h)) in
      elim (Bool-cases (test j)) [
        | inl gone ↦
            let (left, ends, looks) = drop_gone_lem ks (erase j m) later in
            (
              left,
              ground (arith, here, gone, ends),
              λ k. ground (arith, looks k, lookup-erase j k m, eq_iff j k, gone),
            )
        | inr stays ↦
            let (left, ends, looks) = drop_gone_lem ks m later in
            (
              left,
              ground (arith, here, stays, ends),
              λ k. ground (arith, looks k, eq_iff j k, stays),
            )
      ]

-- The keys of a map, which may be nil.
abbrev pub map_keys : GoMap String → List String
map_keys none = []
map_keys (some m) = keys m

contains-keys : (m : Entries String) (k : String) → contains (keys m) k ≡ is_some (lookup k m)
unfolding keys lookup
contains-keys [] k = refl
contains-keys ((j, v) ∷ m) k = ground (arith, contains-keys m k, eq_iff j k)

-- A `range` over a map visits its keys.
abbrev pub IsRange : (List String → List String) → Type 0
IsRange range = (ks : List String) (k : String) → contains (range ks) k ≡ contains ks k

-- The entries whose deployments are there, by a test of the keys.
abbrev pub Keeps : (String → Bool) → GoMap String → GoMap String → Type 0
Keeps test m left = (k : String) → get k left ≡ (if test k then none else get k m)

module _ (D : OperatorDeps) (test : String → Bool) where
  -- Whether the deployments of the keys are gone is what the test says.
  abbrev pub Tells : D.Cluster → GoMap String → Type 0
  Tells c m = (k : String) → contains (map_keys m) k ≡ true → is_gone D c k ≡ ok (test k)

  abbrev pub some_gone : GoMap String → Bool
  some_gone none = false
  some_gone (some m) = any test (D.range (keys m))

module _ (D : OperatorDeps) (range : IsRange D.range) (test : String → Bool) where
  drop_gone_map_lem :
      (c : D.Cluster) (m : GoMap String)
      → Tells D test c m
      → (left : GoMap String) × (drop_gone_map D c m ≡ ok (left, some_gone D test m))
        × Keeps test m left
  unfolding drop_gone_map get
  drop_gone_map_lem c none known = (none, refl, λ k. ground arith)
  drop_gone_map_lem c (some m) known =
      let (left, ends, looks) =
        drop_gone_lem D c test (D.range (keys m)) m
          (λ k h. known k (ground (arith, h, range (keys m) k))) in
      (
        some left,
        ground (arith, ends),
        λ k. ground (arith, looks k, range (keys m) k, contains-keys m k),
      )

  abbrev with_status : ComputeGroup → GoMap String → GoMap String → ComputeGroup
  with_status group leaders workers = record group {
    status = record group.status {
      ready_compute_leaders = leaders;
      ready_compute_workers = workers;
      status =
          if some_gone D test group.status.ready_compute_leaders
          then compute_group_pending
          else if some_gone D test group.status.ready_compute_workers
          then compute_group_pending
          else group.status.status;
    };
  }

  -- When a range over a map visits its keys, and it can be told of each key of the group's status
  -- whether its deployment is gone, the status that processUpdatedComputeGroup writes has just the
  -- ready leaders and the ready workers whose deployments are there, and it is pending if one is
  -- gone, and else the state is as before.
  pub without_gone_lem :
      (group : ComputeGroup) (w : World D)
      → Tells D test w.cluster group.status.ready_compute_leaders
      → Tells D test w.cluster group.status.ready_compute_workers
      → (copy : ComputeGroup) × (without_gone D group w ≡ (ok copy, w))
        × Keeps test group.status.ready_compute_leaders copy.status.ready_compute_leaders
        × Keeps test group.status.ready_compute_workers copy.status.ready_compute_workers
        × (copy.status.status ≡ (
            if some_gone D test group.status.ready_compute_leaders
              || some_gone D test group.status.ready_compute_workers
            then compute_group_pending
            else group.status.status))
  unfolding without_gone
  without_gone_lem group w leaders workers =
      let (left, ends, kept) =
        drop_gone_map_lem w.cluster group.status.ready_compute_leaders leaders in
      let (left', ends', kept') =
        drop_gone_map_lem w.cluster group.status.ready_compute_workers workers in
      (with_status group left left', rw (ends, ends') refl, kept, kept', ground arith)
