-- ===== src/Operator/Deployed.antt =====
-- The compute group that syncGroup2 finds or creates for a specification, and what updateOperatorStatus
-- notes of it (pkg/controllers/operator/operator_controller.go).
use datafuse_operator.Prelude.{
  String, Bool, true, false, Option, none, some, ◌≡◌, ◌⊎◌, refl, Bool-cases, inl, inr, ◌∙◌, ◌<>◌,
  ◌==◌, sym, ap, subst, arith, eq_iff, if◌then◌else◌,
}
use datafuse_operator.Go.Result.{Result, GoError, ok, err, panic, ok-injective}
use datafuse_operator.Go.Exec.{pure, continue, ◌>>=◌}
use mathlib.Core.List.{Mem}
use datafuse_operator.Go.Map.{get, get-put}
use datafuse_operator.Utils.Groups.{make_compute_group}
use datafuse_operator.Api.Types.{
  Operator, ComputeGroup, ComputeGroupSpec, OperatorStatus, operator_ready, compute_group_deployed,
}
use datafuse_operator.Api.Defaults.{set_compute_group_defaults}
use datafuse_operator.Operator.Deps.{OperatorDeps, World, call, items, lister_get}
use datafuse_operator.Operator.Groups.{deployed_operator, desired_group, find_or_create_group}

-- A status of an operator that is ready and whose map says that the compute group of a specification is
-- deployed, in its namespace, or in `default` where it names none; of each other key the map says what
-- that of the operator says.
abbrev pub IsDeployedIn : Operator → ComputeGroupSpec → String → OperatorStatus → Type 0
IsDeployedIn op spec namespace new =
    ((namespace ≡ spec.namespace) ⊎ ((spec.namespace ≡ "") × (namespace ≡ "default")))
    × ((k : String)
        → get k new.compute_group_states ≡ (
            if (namespace <> "/" <> spec.name) == k
            then some compute_group_deployed
            else get k op.status.compute_group_states))
    × (new.status ≡ operator_ready)

-- The status that was there, or the operator's own with one compute group of its specifications that is
-- deployed.
abbrev pub HasOneState : OperatorStatus → Operator → OperatorStatus → Type 0
HasOneState old op new =
    (new ≡ old)
    ⊎ ((spec : ComputeGroupSpec) × Mem (some spec) (items op.spec.compute_groups)
        × ((namespace : String) × IsDeployedIn op spec namespace new))

-- A compute group that a specification asks for.
abbrev pub IsFor : ComputeGroupSpec → ComputeGroup → Type 0
IsFor spec g =
    ((g.meta.namespace ≡ spec.namespace) ⊎ ((spec.namespace ≡ "") × (g.meta.namespace ≡ "default")))
    × (g.meta.name ≡ spec.name)

-- The same of what syncGroup2 found or created.
abbrev pub IsFoundFor : ComputeGroupSpec → Option ComputeGroup × Option GoError → Type 0
IsFoundFor spec (none, e) = Unit
IsFoundFor spec (some g, e) = IsFor spec g

module _ (D : OperatorDeps) where
  pub deployed_operator-IsDeployedIn :
      (op : Operator) (spec : ComputeGroupSpec) (g : ComputeGroup)
      → IsFor spec g
      → IsDeployedIn op spec g.meta.namespace (deployed_operator D g op).status
  unfolding deployed_operator
  deployed_operator-IsDeployedIn op spec g (placed, named) = (
    placed,
    λ k.
        get-put (g.meta.namespace <> "/" <> g.meta.name) k compute_group_deployed
          op.status.compute_group_states
        ∙ ap
            (λ n.
              if (g.meta.namespace <> "/" <> n) == k
              then some compute_group_deployed
              else get k op.status.compute_group_states)
            named,
    refl,
  )

  pub desired_group-IsFor :
      (op : Operator) (spec : ComputeGroupSpec) → IsFor spec (desired_group D op spec)
  unfolding desired_group set_compute_group_defaults make_compute_group
  desired_group-IsFor op spec = elim (Bool-cases (spec.namespace == "")) [
    | inl nowhere ↦
        (inr (ground (arith, nowhere, eq_iff spec.namespace ""), ground (arith, nowhere)), refl)
    | inr placed ↦ (inl (ground (arith, placed)), refl)
  ]

  -- What the API server keeps as the status of an operator: an update of an operator stores its status
  -- or changes nothing, and the creation of a compute group leaves it. The cache keeps a compute group by
  -- its namespace and its name, and the server creates one with those that it was sent with.
  pub record IsOperatorStore (stored : D.Cluster → OperatorStatus) : Type 0 where
    pub updates :
        (ns : String) (op : Operator) (c : D.Cluster)
        → (stored (D.update_operator ns op c).1 ≡ op.status)
          ⊎ (stored (D.update_operator ns op c).1 ≡ stored c)
    pub create_group :
        (ns : String) (g : ComputeGroup) (c : D.Cluster)
        → stored (D.create_group ns g c).1 ≡ stored c
    pub indexed :
        (c : D.Cluster) (ns n : String) (g : ComputeGroup)
        → D.group_by_key c (ns <> "/" <> n) ≡ ok (some g)
        → (g.meta.namespace ≡ ns) × (g.meta.name ≡ n)
    pub creates :
        (ns : String) (g g' : ComputeGroup) (e : Option GoError) (c : D.Cluster)
        → (D.create_group ns g c).0 ≡ ok (g', e)
        → (g'.meta.namespace ≡ g.meta.namespace) × (g'.meta.name ≡ g.meta.name)

  module _ (stored : D.Cluster → OperatorStatus) (store : IsOperatorStore stored)
      (op : Operator) where
    lister_get-IsFor :
        (c : D.Cluster) (spec : ComputeGroupSpec) (g : ComputeGroup)
        → lister_get D c spec.namespace spec.name ≡ ok g
        → IsFor spec g
    unfolding lister_get
    lister_get-IsFor c spec g = go (D.group_by_key c (spec.namespace <> "/" <> spec.name)) refl
      where
        go :
            (r : Result (Option ComputeGroup))
            → D.group_by_key c (spec.namespace <> "/" <> spec.name) ≡ r
            → (elim r as (λ _. Result ComputeGroup) [
              | ok (some group) ↦ ok group
              | ok none ↦ err (D.meta.new_not_found "datafusecomputegroup" spec.name)
              | err e ↦ err e
              | panic ↦ panic
            ])
              ≡ ok g
            → IsFor spec g
        go (ok (some group)) e got =
            let (placed, named) =
              store.indexed c spec.namespace spec.name g
                (e ∙ ap (λ r. ok (some r)) (ok-injective got)) in
            (inl placed, named)
        go (ok none) _ got = cc
        go (err _) _ got = cc
        go panic _ got = cc

    created-IsFoundFor :
        (spec : ComputeGroupSpec) (c : D.Cluster) (v : World D)
        (found : Option ComputeGroup × Option GoError) (r : Result (ComputeGroup × Option GoError))
        → (D.create_group (desired_group D op spec).meta.namespace (desired_group D op spec) c).0
          ≡ r
        → (continue r (λ g. pure (some g.0, g.1)) v).0 ≡ ok found
        → IsFoundFor spec found
    created-IsFoundFor spec c v found (ok (g, e)) sent run =
        let wanted = desired_group D op spec in
        let (placed', named') = store.creates wanted.meta.namespace wanted g e c sent in
        let (placed, named) = desired_group-IsFor op spec in
        let is_for : IsFor spec g = (
          elim placed [
            | inl same ↦ inl (placed' ∙ same)
            | inr (nowhere, default) ↦ inr (nowhere, placed' ∙ default)
          ],
          named' ∙ named,
        ) in
        subst (IsFoundFor spec) (ok-injective run) is_for
    created-IsFoundFor spec c v found (err _) _ run = cc
    created-IsFoundFor spec c v found panic _ run = cc

    asked-IsFoundFor :
        (spec : ComputeGroupSpec) (w : World D) (found : Option ComputeGroup × Option GoError)
        (e : GoError) (missing : Bool)
        → (if missing
            then (do
              (g, e') ← call D (
                  D.create_group (desired_group D op spec).meta.namespace (desired_group D op spec))
              pure (some g, e'))
                w
            else (ok (none, some e), w)).0
          ≡ ok found
        → IsFoundFor spec found
    asked-IsFoundFor spec w found e true run =
        let creating =
          D.create_group (desired_group D op spec).meta.namespace (desired_group D op spec) in
        created-IsFoundFor spec w.cluster (call D creating w).1 found (creating w.cluster).0 refl
          run
    asked-IsFoundFor spec w found e false run = subst (IsFoundFor spec) (ok-injective run) tt

    pub find_or_create_group-IsFoundFor :
        (spec : ComputeGroupSpec) (w : World D) (found : Option ComputeGroup × Option GoError)
        → (find_or_create_group D spec (desired_group D op spec) w).0 ≡ ok found
        → IsFoundFor spec found
    unfolding find_or_create_group
    find_or_create_group-IsFoundFor spec w found =
        go (lister_get D w.cluster spec.namespace (desired_group D op spec).meta.name) refl
      where
        go :
            (r : Result ComputeGroup)
            → lister_get D w.cluster spec.namespace (desired_group D op spec).meta.name ≡ r
            → (elim r as (λ _. Result (Option ComputeGroup × Option GoError) × World D) [
              | ok g ↦ (ok (some g, none), w)
              | panic ↦ (panic, w)
              | err e ↦
                  if D.meta.is_not_found e
                  then (do
                    (g, e') ← call D (
                        D.create_group
                          (desired_group D op spec).meta.namespace
                          (desired_group D op spec))
                    pure (some g, e'))
                      w
                  else (ok (none, some e), w)
            ]).0
              ≡ ok found
            → IsFoundFor spec found
        go (ok g) e run =
            let named = (desired_group-IsFor op spec).1 in
            let got : lister_get D w.cluster spec.namespace spec.name ≡ ok g =
              ap (lister_get D w.cluster spec.namespace) (sym named) ∙ e in
            subst (IsFoundFor spec) (ok-injective run) (lister_get-IsFor w.cluster spec g got)
        go panic _ run = cc
        go (err e) _ run = asked-IsFoundFor spec w found e (D.meta.is_not_found e) run
