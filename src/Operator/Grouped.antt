-- ===== src/Operator/Grouped.antt =====
-- The compute groups behind processNewOperator of pkg/controllers/operator/operator_controller.go.
use datafuse_operator.Prelude.{
  String, ◌<>◌, false, Option, none, some, List, [], ◌∷◌, map, ◌==◌, ◌≡◌, refl, arith, Bool-cases,
  Option-cases, inl, inr, subst, sym, All, ◌∙◌, ap,
}
use datafuse_operator.Go.Result.{GoError, ok, err}
use datafuse_operator.Go.Holds.{Holds, Any, Holds-bind, Completes, Completes-attempt}
use datafuse_operator.Kube.Meta.{IsLawful}
use datafuse_operator.Api.Types.{Operator, ComputeGroup, ComputeGroupSpec}
use datafuse_operator.Api.Defaults.{set_operator_default, set_compute_group_defaults}
use datafuse_operator.Utils.Groups.{make_compute_group}
use datafuse_operator.Operator.Deps.{OperatorDeps, World, call, items, lister_get}
use datafuse_operator.Operator.Groups.{
  desired_group, find_or_create_group, adopt_group, sync_group, sync_groups, update_operator_status,
  process_new_operator,
}

items-set_operator_default :
    (op : Operator)
    → items (set_operator_default op).spec.compute_groups ≡ items op.spec.compute_groups
unfolding set_operator_default
items-set_operator_default op = elim (Option-cases op.spec.compute_groups) [
  | inl e ↦ rw e refl
  | inr (l, e) ↦ rw e refl
]

module _ (D : OperatorDeps) where
  -- The cache has a compute group of a namespace and a name.
  abbrev pub HasGroup : D.Cluster → String → String → Type 0
  HasGroup c ns n = (g : ComputeGroup) × (D.group_by_key c (ns <> "/" <> n) ≡ ok (some g))

  abbrev pub HasSpec : ComputeGroupSpec → D.Cluster → Type 0
  HasSpec spec c = HasGroup c spec.namespace spec.name

  -- The API server answers, and a property of the cluster outlives the calls for an operator.
  pub record IsGroupKept (P : D.Cluster → Type 0) : Type 0 where
    pub creates_group :
        (ns : String) (g : ComputeGroup) (c : D.Cluster) → P c → Holds P Any (D.create_group ns g c)
    pub updates_operator :
        (ns : String) (op : Operator) (c : D.Cluster)
        → P c
        → Holds P Any (D.update_operator ns op c)

  -- The cache is up to date, the server answers, a compute group that is created is there, and no call
  -- of a sync makes one vanish.
  pub record IsGroupApi : Type 0 where
    pub answers : IsGroupKept Any
    pub indexed :
        (c : D.Cluster) (k : String) → (g : Option ComputeGroup) × (D.group_by_key c k ≡ ok g)
    pub appears :
        (c : D.Cluster) (g : ComputeGroup)
        → HasGroup (D.create_group g.meta.namespace g c).1 g.meta.namespace g.meta.name
    pub outlives_create :
        (ns' : String) (g : ComputeGroup) (c : D.Cluster) (ns n : String)
        → HasGroup c ns n
        → HasGroup (D.create_group ns' g c).1 ns n
    pub outlives_update :
        (ns' : String) (op : Operator) (c : D.Cluster) (ns n : String)
        → HasGroup c ns n
        → HasGroup (D.update_operator ns' op c).1 ns n

  -- A group that is not nil
  abbrev IsThere : Option ComputeGroup × Option GoError → Type 0
  IsThere (none, _) = ⊥
  IsThere (some _, _) = Unit

  desired_group-placed :
      (op : Operator) (spec : ComputeGroupSpec)
      → (spec.namespace == "") ≡ false
      → ((desired_group D op spec).meta.namespace ≡ spec.namespace)
        × ((desired_group D op spec).meta.name ≡ spec.name)
  unfolding desired_group set_compute_group_defaults make_compute_group
  desired_group-placed op spec h = (ground (arith, h), refl)

  lister_get-finds :
      (c : D.Cluster) (ns n : String) (g : ComputeGroup)
      → D.group_by_key c (ns <> "/" <> n) ≡ ok (some g)
      → lister_get D c ns n ≡ ok g
  unfolding lister_get
  lister_get-finds c ns n g e = rw (e, lister_get) refl

  lister_get-misses :
      (c : D.Cluster) (ns n : String)
      → D.group_by_key c (ns <> "/" <> n) ≡ ok none
      → lister_get D c ns n ≡ err (D.meta.new_not_found "datafusecomputegroup" n)
  unfolding lister_get
  lister_get-misses c ns n e = rw (e, lister_get) refl

  module _ (api : IsGroupApi) where
    HasSpec-IsGroupKept :
        (P : D.Cluster → Type 0) (spec : ComputeGroupSpec)
        → IsGroupKept P
        → IsGroupKept (λ c. P c × HasSpec spec c)
    HasSpec-IsGroupKept P spec kept = record {
      creates_group = λ ns g c h. (
        (kept.creates_group ns g c h.0).0,
        ((kept.creates_group ns g c h.0).1, api.outlives_create ns g c _ _ h.1),
      );
      updates_operator = λ ns op c h. (
        (kept.updates_operator ns op c h.0).0,
        ((kept.updates_operator ns op c h.0).1, api.outlives_update ns op c _ _ h.1),
      );
    }

    module _ (P : D.Cluster → Type 0) (kept : IsGroupKept P) where
      abbrev Here : World D → Type 0
      Here w = P w.cluster

      adopt_group-Holds :
          (op : Operator) (found : Option ComputeGroup × Option GoError) (w : World D)
          → IsThere found
          → Here w
          → Holds Here Any (adopt_group D op found w)
      unfolding adopt_group update_operator_status
      adopt_group-Holds op (none, e) w there h = elim there [ ]
      adopt_group-Holds op (some g, some e) w _ h =
          elim (Bool-cases (D.meta.is_controlled_by g.meta op.meta)) [
            | inr foreign ↦ rw foreign (tt, h)
            | inl ours ↦ rw ours (tt, h)
          ]
      adopt_group-Holds op (some g, none) w _ h =
          elim (Bool-cases (D.meta.is_controlled_by g.meta op.meta)) [
            | inr foreign ↦ rw foreign (tt, h)
            | inl ours ↦ rw ours (
                Holds-bind Here Any Any (update_operator_status D g op) _ w
                  (kept.updates_operator op.meta.namespace _ w.cluster h) (λ _ t _ k. (tt, k)))
          ]

    module _ (P : D.Cluster → Type 0) (kept : IsGroupKept P) (lawful : IsLawful D.meta) where
      -- The compute group of a specification is there once it was looked up or created.
      find_or_create_group-Has :
          (op : Operator) (spec : ComputeGroupSpec) (w : World D)
          → (spec.namespace == "") ≡ false
          → P w.cluster
          → Holds
              (λ (v : World D). P v.cluster × HasSpec spec v.cluster)
              IsThere
              (find_or_create_group D spec (desired_group D op spec) w)
      unfolding find_or_create_group
      find_or_create_group-Has op spec w placed h =
          let group = desired_group D op spec in
          let (same_place, same_name) = desired_group-placed op spec placed in
          let named : HasGroup w.cluster spec.namespace group.meta.name → HasSpec spec w.cluster =
            subst (HasGroup w.cluster spec.namespace) same_name in
          let key = spec.namespace <> "/" <> group.meta.name in
          elim (Option-cases (api.indexed w.cluster key).0) [
            | inr (g, there) ↦
                let e : D.group_by_key w.cluster key ≡ ok (some g) =
                  (api.indexed w.cluster key).1 ∙ ap ok there in
                rw
                  (
                    lister_get-finds w.cluster spec.namespace group.meta.name g e,
                    find_or_create_group,
                  )
                  (tt, (h, named (g, e)))
            | inl nil ↦
                let e : D.group_by_key w.cluster key ≡ ok none =
                  (api.indexed w.cluster key).1 ∙ ap ok nil in
                let created : HasGroup (D.create_group group.meta.namespace group w.cluster).1
                    spec.namespace spec.name =
                  subst
                    (λ (ns : String).
                      HasGroup (D.create_group group.meta.namespace group w.cluster).1 ns spec.name)
                    same_place
                    (subst
                      (λ (n : String).
                        HasGroup (D.create_group group.meta.namespace group w.cluster).1
                          group.meta.namespace n)
                      same_name (api.appears w.cluster group)) in
                rw
                  (
                    lister_get-misses w.cluster spec.namespace group.meta.name e,
                    find_or_create_group,
                  )
                  (rw (lawful.not_found "datafusecomputegroup" group.meta.name) (
                    Holds-bind (λ (v : World D). P v.cluster × HasSpec spec v.cluster) Any IsThere
                      (call D (D.create_group group.meta.namespace group)) _ w
                      (
                        (kept.creates_group group.meta.namespace group w.cluster h).0,
                        ((kept.creates_group group.meta.namespace group w.cluster h).1, created),
                      )
                      (λ _ t _ k. (tt, k))))
          ]

      sync_group-Has :
          (op : Operator) (spec : ComputeGroupSpec) (w : World D)
          → (spec.namespace == "") ≡ false
          → P w.cluster
          → Holds
              (λ (v : World D). P v.cluster × HasSpec spec v.cluster)
              Any
              (sync_group D op (some spec) w)
      unfolding sync_group
      sync_group-Has op spec w placed h =
          Holds-bind _ IsThere Any (find_or_create_group D spec (desired_group D op spec))
            (adopt_group D op) w (find_or_create_group-Has op spec w placed h)
            (λ found t there k.
              adopt_group-Holds (λ c. P c × HasSpec spec c) (HasSpec-IsGroupKept P spec kept) op
                found t there k)

    -- The loop runs to its end; what was there before a group of it stays there.
    sync_groups-Has :
        (P : D.Cluster → Type 0) (kept : IsGroupKept P) (lawful : IsLawful D.meta) (op : Operator)
        (specs : List ComputeGroupSpec) (w : World D)
        → All (λ spec. (spec.namespace == "") ≡ false) specs
        → P w.cluster
        → Completes
            (λ (v : World D). P v.cluster × All (λ spec. HasSpec spec v.cluster) specs)
            (sync_groups D op (map some specs) w)
    unfolding sync_groups
    sync_groups-Has P kept lawful op [] w _ h = (refl, (h, tt))
    sync_groups-Has P kept lawful op (spec ∷ specs) w (placed, places) h =
        Completes-attempt (λ (v : World D). P v.cluster × HasSpec spec v.cluster)
          (λ (v : World D). P v.cluster × All (λ sp. HasSpec sp v.cluster) (spec ∷ specs))
          (sync_group D op (some spec)) _ w (sync_group-Has P kept lawful op spec w placed h)
          (λ t k.
            let (ends, ((p, has), all)) =
              sync_groups-Has (λ c. P c × HasSpec spec c) (HasSpec-IsGroupKept P spec kept) lawful
                op specs t places k in
            (ends, (p, (has, all))))

    -- With the metadata functions as documented, when the cache is up to date, the server answers, a
    -- compute group that is created is there and no call makes one vanish, and each group of the
    -- operator's specification names its namespace: processNewOperator ends without an error, and the
    -- cache has a compute group of the namespace and the name of each of them.
    pub process_new_operator-Covers :
        (lawful : IsLawful D.meta) (op : Operator) (specs : List ComputeGroupSpec) (w : World D)
        → items op.spec.compute_groups ≡ map some specs
        → All (λ spec. (spec.namespace == "") ≡ false) specs
        → Completes
            (λ (v : World D). All (λ spec. HasSpec spec v.cluster) specs)
            (process_new_operator D op w)
    unfolding process_new_operator set_operator_default
    process_new_operator-Covers lawful op specs w listed places =
        let copy = set_operator_default op in
        let (ends, (_, all)) = sync_groups-Has Any api.answers lawful copy specs w places tt in
        subst
          (λ (l : List (Option ComputeGroupSpec)).
            Completes (λ (v : World D). All (λ spec. HasSpec spec v.cluster) specs)
              (sync_groups D copy l w))
          (sym (items-set_operator_default op ∙ listed)) (ends, all)
