-- ===== src/Operator/Deps.antt =====
-- What the operator controller uses: the informers' caches, the API server and the event recorder.
use datafuse_operator.Prelude.{String, ◌<>◌, Option, none, some, List, ◌∷◌, ◌++◌, []}
use datafuse_operator.Go.Result.{Result, GoError, ok, err, panic}
use datafuse_operator.Go.Exec.{Exec}
use datafuse_operator.Kube.Objects.{Deployment, Service}
use datafuse_operator.Kube.Meta.{Quantities, MetaFuncs}
use datafuse_operator.Api.Types.{Operator, ComputeGroup}

-- A state of the cluster with the caches of the informers, and the calls on it.
pub record OperatorDeps : Type 1 where
  pub quantities : Quantities
  pub meta : MetaFuncs
  pub Cluster : Type 0
  -- cache.Indexer of the compute groups: GetByKey
  pub group_by_key : Cluster → String → Result (Option ComputeGroup)
  -- the listers of client-go: namespace and name
  pub get_deployment : Cluster → String → String → Result (Deployment quantities.Quantity)
  pub get_service : Cluster → String → String → Result Service
  -- the clients: the namespace first. The clients of the custom resources return an object beside an
  -- error too.
  pub create_deployment :
      String → Deployment quantities.Quantity → Exec Cluster (Deployment quantities.Quantity)
  pub update_deployment :
      String → Deployment quantities.Quantity → Exec Cluster (Deployment quantities.Quantity)
  pub delete_deployment : String → String → Exec Cluster (Unit {0})
  pub create_service : String → Service → Exec Cluster Service
  pub create_group : String → ComputeGroup → Exec Cluster (ComputeGroup × Option GoError)
  pub update_group : String → ComputeGroup → Exec Cluster (Unit {0})
  pub update_operator : String → Operator → Exec Cluster (Unit {0})
  -- the order in which a `range` over a map visits its keys
  pub range : List String → List String

-- The elements that a `range` over a slice visits; a nil slice has none.
abbrev pub items : {A : Type 0} → Option (List A) → List A
items none = []
items (some l) = l

-- An event of the recorder: its type, its reason and its message.
pub record Event : Type 0 where
  pub kind : String
  pub reason : String
  pub message : String

module _ (D : OperatorDeps) where
  abbrev pub ADeployment : Type 0
  ADeployment = Deployment D.quantities.Quantity

  pub record World : Type 0 where
    pub cluster : D.Cluster
    pub events : List Event

  -- A call of a client.
  abbrev pub call : {A : Type 0} → Exec D.Cluster A → Exec World A
  call m w = let (r, c) = m w.cluster in (r, record w { cluster = c })

  -- A read of a cache.
  abbrev pub cached : {A : Type 0} → (D.Cluster → Result A) → Exec World A
  cached f w = (f w.cluster, w)

  -- recorder.Event
  abbrev pub record_event : String → String → String → Exec World (Unit {0})
  record_event kind reason message w = (
    ok tt,
    record w {
      events = w.events ++ record { kind = kind; reason = reason; message = message } ∷ [];
    },
  )

  -- Get of the namespace lister of pkg/client/listers/datafuse/v1alpha1/datafusecomputegroup.go
  unfoldable pub lister_get : D.Cluster → String → String → Result ComputeGroup
  lister_get c namespace name = elim (D.group_by_key c (namespace <> "/" <> name)) [
    | ok (some group) ↦ ok group
    | ok none ↦ err (D.meta.new_not_found "datafusecomputegroup" name)
    | err e ↦ err e
    | panic ↦ panic
  ]
