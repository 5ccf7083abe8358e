-- ===== src/Operator/Adopt.antt =====
-- What syncGroup2 of pkg/controllers/operator/operator_controller.go does with the compute group of a
-- specification.
use datafuse_operator.Prelude.{String, ◌<>◌, none, some, ◌≡◌, refl, sym, subst}
use datafuse_operator.Go.Result.{ok, err}
use datafuse_operator.Go.Exec.{pure, ◌>>=◌}
use datafuse_operator.Kube.Meta.{IsLawful}
use datafuse_operator.Api.Types.{Operator, ComputeGroup, ComputeGroupSpec}
use datafuse_operator.Api.Defaults.{set_compute_group_defaults}
use datafuse_operator.Utils.Groups.{make_compute_group}
use datafuse_operator.Operator.Deps.{OperatorDeps, World, call, lister_get}
use datafuse_operator.Operator.Groups.{desired_group, find_or_create_group, adopt_group, sync_group}

module _ (D : OperatorDeps) (op : Operator) (spec : ComputeGroupSpec) (w : World D) where
  abbrev wanted : ComputeGroup
  wanted = desired_group D op spec

  module _ (lawful : IsLawful D.meta)
      (keyed : (name : String) → D.group_by_key w.cluster ("" <> "/" <> name) ≡ ok none)
      (nowhere : spec.namespace ≡ "") where
    lister_get-misses :
        (name : String)
        → lister_get D w.cluster "" name ≡ err (D.meta.new_not_found "datafusecomputegroup" name)
    unfolding lister_get
    lister_get-misses name = rw (keyed name, lister_get) refl

    wanted-namespace : wanted.meta.namespace ≡ "default"
    unfolding desired_group set_compute_group_defaults make_compute_group
    wanted-namespace = rw nowhere refl

    create_lem :
        find_or_create_group D spec wanted w
        ≡ (call D (D.create_group wanted.meta.namespace wanted) >>= λ r. pure (some r.0, r.1)) w
    unfolding find_or_create_group
    create_lem =
        let missed : lister_get D w.cluster spec.namespace wanted.meta.name
            ≡ err (D.meta.new_not_found "datafusecomputegroup" wanted.meta.name) =
          subst
            (λ (ns : String).
              lister_get D w.cluster ns wanted.meta.name
              ≡ err (D.meta.new_not_found "datafusecomputegroup" wanted.meta.name))
            (sym nowhere) (lister_get-misses wanted.meta.name) in
        rw (missed, find_or_create_group) (rw lawful.not_found refl)

    -- With the metadata functions as documented, when no key of the cache begins with a slash, as the
    -- key of no object does that has a namespace, a specification without a namespace never finds its
    -- compute group: syncGroup2 asks the API server to create it in the namespace `default`, whatever
    -- the cache has there.
    pub sync_group-misses :
        sync_group D op (some spec) w
        ≡ (call D (D.create_group "default" wanted)
              >>= (λ r. pure (some r.0, r.1))
              >>= adopt_group D op)
            w
    unfolding sync_group
    sync_group-misses =
        subst
          (λ (ns : String).
            sync_group D op (some spec) w
            ≡ (call D (D.create_group ns wanted)
                  >>= (λ r. pure (some r.0, r.1))
                  >>= adopt_group D op)
                w)
          wanted-namespace (rw create_lem refl)
