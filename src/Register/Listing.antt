-- ===== src/Register/Listing.antt =====
-- What RegisterController reads from its informers (pkg/controllers/register/register_controller.go).
use datafuse_operator.Prelude.{String, Bool, Option, none, some, List, [], ◌∷◌, ◌&&◌, if◌then◌else◌}
use datafuse_operator.Go.Map.{Entries, lookup}
use datafuse_operator.Go.Result.{Result, ok, err, panic}
use datafuse_operator.Kube.Objects.{Pod}
use datafuse_operator.Kube.Meta.{Quantities, MetaFuncs}
use datafuse_operator.Constants
use datafuse_operator.Register.Nodes.{is_group_leader, is_group_worker}
use datafuse_operator.Register.Web.{Web}

-- What the libraries give to the register controller: podutils.IsPodReady, and the order in which a
-- `range` over a map visits its entries.
pub record RegisterDeps : Type 1 where
  pub quantities : Quantities
  pub meta : MetaFuncs
  pub web : Web
  pub is_pod_ready : Pod quantities.Quantity → Bool
  pub range : Entries (Pod quantities.Quantity) → Entries (Pod quantities.Quantity)

module _ (D : RegisterDeps) where
  abbrev pub APod : Type 0
  APod = Pod D.quantities.Quantity

  -- An interface{} value: a *v1.Pod, or something else, such as a tombstone.
  pub data Object : Type 0 where
    pod : APod → Object
    other : Object

  -- cache.Store: List, and GetByKey with the object if there is one.
  pub record PodStore : Type 0 where
    pub list : List Object
    pub get_by_key : String → Result (Option Object)

  -- The fields of RegisterController and of its RegistSetter that the processing reads.
  pub record RegisterController : Type 0 where
    pub all_ns : Bool
    pub pod_informers : Entries PodStore

  -- `rc.podInformers[metav1.NamespaceAll].GetStore()`
  unfoldable pub all_ns_store : RegisterController → Result PodStore
  all_ns_store rc = elim (lookup Constants.namespace_all rc.pod_informers) [
    | none ↦ panic
    | some store ↦ ok store
  ]

  -- The loop of ListReadyLeaders and ListReadyWorkers, for a role test.
  unfoldable pub ready_pods : (APod → Bool) → List Object → List APod
  ready_pods role [] = []
  ready_pods role (other ∷ objs) = ready_pods role objs
  ready_pods role (pod p ∷ objs) =
      let rest = ready_pods role objs in if D.is_pod_ready p && role p then p ∷ rest else rest

  -- ListReadyLeaders
  unfoldable pub list_ready_leaders : RegisterController → String → Result (List APod)
  list_ready_leaders rc group_key =
      if rc.all_ns
      then elim (all_ns_store rc) [
        | ok store ↦ ok (ready_pods (is_group_leader D.quantities) store.list)
        | err e ↦ err e
        | panic ↦ panic
      ]
      else ok []

  -- ListReadyWorkers
  unfoldable pub list_ready_workers : RegisterController → String → Result (List APod)
  list_ready_workers rc group_key =
      if rc.all_ns
      then elim (all_ns_store rc) [
        | ok store ↦ ok (ready_pods (is_group_worker D.quantities) store.list)
        | err e ↦ err e
        | panic ↦ panic
      ]
      else ok []
