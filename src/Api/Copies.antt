-- ===== src/Api/Copies.antt =====
-- Deep copies (zz_generated.deepcopy.go) beside their originals, for maps that have each key once.
use datafuse_operator.Prelude.{
  String, false, ◌||◌, Option, none, some, is_some, List, [], ◌∷◌, ◌++◌, append-nil, append_assoc,
  ◌==◌, eq_iff, All, ◌≡◌, refl, sym, ap, ◌∙◌, subst, arith,
}
use datafuse_operator.Go.Map.{Entries, GoMap, lookup, insert, NodupKeys}
use datafuse_operator.Kube.Objects.{ObjectMeta}
use datafuse_operator.Api.Types.{ComputeSetSpec, ComputeGroupSpec, ComputeGroup, Operator}
use datafuse_operator.Api.DeepCopy.{
  copy_entries, copy_map, copy_pointer, copy_pointers, copy_slice, copy_instance_spec,
  copy_set_spec, copy_group_spec, copy_group_status, copy_operator_spec, copy_operator_status,
  copy_group, copy_operator,
}

module _ {V : Type 0} where
  lookup_append :
      (out m : Entries V) (k : String)
      → is_some (lookup k (out ++ m)) ≡ (is_some (lookup k out) || is_some (lookup k m))
  unfolding lookup
  lookup_append [] m k = refl
  lookup_append ((j, w) ∷ out) m k = ground (arith, lookup_append out m k)

  insert_fresh :
      (k : String) (v : V) (out m : Entries V)
      → NodupKeys (out ++ (k, v) ∷ m)
      → insert k v out ≡ out ++ (k, v) ∷ []
  unfolding insert lookup
  insert_fresh k v [] m _ = refl
  insert_fresh k v ((j, w) ∷ out) m (fresh, u) =
      let differ : (j == k) ≡ false =
        ground (arith, fresh, lookup_append out ((k, v) ∷ m) j, eq_iff j k, eq_iff k j) in
      rw differ (ap (λ rest. (j, w) ∷ rest) (insert_fresh k v out m u))

  copy_entries_lem : (m out : Entries V) → NodupKeys (out ++ m) → copy_entries m out ≡ out ++ m
  unfolding copy_entries
  copy_entries_lem [] out _ = sym (append-nil out)
  copy_entries_lem ((k, v) ∷ m) out u =
      let step = insert_fresh k v out m u in
      let assoc : (out ++ (k, v) ∷ []) ++ m ≡ out ++ (k, v) ∷ m =
        append_assoc out ((k, v) ∷ []) m in
      rw step (copy_entries_lem m (out ++ (k, v) ∷ []) (subst NodupKeys (sym assoc) u) ∙ assoc)

-- Go's maps have each key once; so do the lists that stand for them.
abbrev pub IsGoMap : {V : Type 0} → GoMap V → Type 0
IsGoMap none = Unit
IsGoMap (some m) = NodupKeys m

-- What a pointer points to, if anything, has a property.
abbrev pub Behind : {A : Type 0} → (A → Type 0) → Option A → Type 0
Behind P none = Unit
Behind P (some a) = P a

abbrev pub AllBehind : {A : Type 0} → (A → Type 0) → Option (List (Option A)) → Type 0
AllBehind P none = Unit
AllBehind P (some ps) = All (Behind P) ps

abbrev pub HasMaps : ComputeSetSpec → Type 0
HasMaps set = IsGoMap set.instance_spec.labels

abbrev pub HasGroupMaps : ComputeGroupSpec → Type 0
HasGroupMaps spec = Behind HasMaps spec.compute_leaders × AllBehind HasMaps spec.compute_workers

copy_map_lem : {V : Type 0} (m : GoMap V) → IsGoMap m → copy_map m ≡ m
unfolding copy_map
copy_map_lem none _ = refl
copy_map_lem (some m) u = ap some (copy_entries_lem m [] u)

copy_value_lem : {A : Type 0} (p : Option A) → copy_pointer (λ a. a) p ≡ p
unfolding copy_pointer
copy_value_lem none = refl
copy_value_lem (some a) = refl

module _ {A : Type 0} (P : A → Type 0) (copy : A → A) (same : (a : A) → P a → copy a ≡ a) where
  copy_pointer_lem : (p : Option A) → Behind P p → copy_pointer copy p ≡ p
  unfolding copy_pointer
  copy_pointer_lem none _ = refl
  copy_pointer_lem (some a) h = ap some (same a h)

  copy_pointers_lem : (ps : List (Option A)) → All (Behind P) ps → copy_pointers copy ps ≡ ps
  unfolding copy_pointers
  copy_pointers_lem [] _ = refl
  copy_pointers_lem (p ∷ ps) (h, hs) = rw (copy_pointer_lem p h, copy_pointers_lem ps hs) refl

  copy_slice_lem : (s : Option (List (Option A))) → AllBehind P s → copy_slice copy s ≡ s
  unfolding copy_slice
  copy_slice_lem none _ = refl
  copy_slice_lem (some ps) h = ap some (copy_pointers_lem ps h)

copy_set_spec_lem : (set : ComputeSetSpec) → HasMaps set → copy_set_spec set ≡ set
unfolding copy_set_spec copy_instance_spec
copy_set_spec_lem set u = simp (copy_map_lem set.instance_spec.labels u, copy_value_lem)

copy_group_spec_lem : (spec : ComputeGroupSpec) → HasGroupMaps spec → copy_group_spec spec ≡ spec
unfolding copy_group_spec
copy_group_spec_lem spec (h, hs) =
    rw
      (
        copy_pointer_lem HasMaps copy_set_spec copy_set_spec_lem spec.compute_leaders h,
        copy_slice_lem HasMaps copy_set_spec copy_set_spec_lem spec.compute_workers hs,
      )
      refl

module _ (copy_meta : ObjectMeta → ObjectMeta) (copies : (o : ObjectMeta) → copy_meta o ≡ o) where
  -- DeepCopy of a compute group gives an equal one, when apimachinery's copy of its metadata is equal
  -- and each map of its specification and its status has a key once.
  pub copy_group_lem :
      (group : ComputeGroup)
      → HasGroupMaps group.spec
      → IsGoMap group.status.ready_compute_leaders
      → IsGoMap group.status.ready_compute_workers
      → copy_group copy_meta group ≡ group
  unfolding copy_group copy_group_status
  copy_group_lem group h leaders workers =
      rw
        (
          copies group.meta,
          copy_group_spec_lem group.spec h,
          copy_map_lem group.status.ready_compute_leaders leaders,
          copy_map_lem group.status.ready_compute_workers workers,
        )
        refl

  -- DeepCopy of an operator gives an equal one, when apimachinery's copy of its metadata is equal and
  -- each map of its groups and its status has a key once.
  pub copy_operator_lem :
      (op : Operator)
      → AllBehind HasGroupMaps op.spec.compute_groups
      → IsGoMap op.status.compute_group_states
      → copy_operator copy_meta op ≡ op
  unfolding copy_operator copy_operator_spec copy_operator_status
  copy_operator_lem op h states =
      rw
        (
          copies op.meta,
          copy_slice_lem HasGroupMaps copy_group_spec copy_group_spec_lem op.spec.compute_groups h,
          copy_map_lem op.status.compute_group_states states,
        )
        (rw copy_value_lem refl)
