-- ===== src/Program/Watches.antt =====
-- What the informers of the program watch (main.go).
use datafuse_operator.Prelude.{String, true, none, some, List, [], ◌∷◌, ◌≡◌}
use datafuse_operator.Go.Int.{ℤ, pos}
use datafuse_operator.Go.Map.{Entries}
use datafuse_operator.Constants
use datafuse_operator.Api.Types.{ComputeGroup, Operator}
use datafuse_operator.Client.Requests.{
  ListOptions, timeout_of, get_verb, list_params, no_body, Request, RestClient, watch,
}
use datafuse_operator.Client.Informers.{
  SharedInformer, Factory, new_filtered_shared_informer_factory, compute_group_type, operator_type,
  new_compute_group_informer, new_operator_informer, start,
}
use datafuse_operator.Client.Factory.{Call, request}
use datafuse_operator.Client.Watching.{
  Tweak, list_groups_of, watch_groups_of, list_operators_of, watch_operators_of,
}
use datafuse_operator.Client.Scope.{asking}
use datafuse_operator.Client.Clientset.{Clientset}
use datafuse_operator.Register.Listing.{RegisterDeps, PodStore}
use datafuse_operator.Register.Watch.{new_register_controller}
use datafuse_operator.Operator.Start.{OperatorController, start as start_controller}
use datafuse_operator.Program.Main.{Libraries, Running, thirty_seconds}

module _ (T : Type 0) (range : Entries (SharedInformer T) → Entries (SharedInformer T))
    (namespace : String) where
  abbrev fresh : Factory T
  fresh = new_filtered_shared_informer_factory T thirty_seconds namespace none

  abbrev made : String → SharedInformer T
  made type = record {
    object_type = type;
    namespace = namespace;
    resync = thirty_seconds;
    tweak = none;
  }

  -- What NewController asks the factory for.
  abbrev calls : List (Call T range)
  calls =
      request compute_group_type (λ resync. new_compute_group_informer T namespace resync none)
      ∷ request operator_type (λ resync. new_operator_informer T namespace resync none)
      ∷ []

  module _ (K : Type 0) (deploy service : K) where
    abbrev wired : OperatorController K T
    wired = record {
      deployment_lister = deploy;
      service_lister = service;
      group_lister = made compute_group_type;
      operator_lister = made operator_type;
      group_synced = made compute_group_type;
      operator_synced = made operator_type;
      deployments_synced = deploy;
      service_synced = service;
    }

-- What client-go says of a factory of informers: those of NewSharedInformerFactory watch all namespaces,
-- and those of a factory with a namespace watch that one.
pub record IsKubeLibrary (L : Libraries) : Type 0 where
  pub watched : L.KubeInformer → String
  pub deployments_everywhere :
      (client : L.KubeClient) (resync : ℤ)
      → watched (L.deployments (L.kube_factory client resync)) ≡ ""
  pub services_everywhere :
      (client : L.KubeClient) (resync : ℤ)
      → watched (L.services (L.kube_factory client resync)) ≡ ""
  pub deployments_within :
      (client : L.KubeClient) (resync : ℤ) (namespace : String)
      → watched (L.deployments (L.kube_factory_with_namespace client resync namespace)) ≡ namespace
  pub services_within :
      (client : L.KubeClient) (resync : ℤ) (namespace : String)
      → watched (L.services (L.kube_factory_with_namespace client resync namespace)) ≡ namespace

module _ {Options Rest : Type 0} (R : RestClient ComputeGroup Options Rest)
    (R' : RestClient Operator Options Rest)
    (range : Entries (SharedInformer (Tweak Rest)) → Entries (SharedInformer (Tweak Rest)))
    (L : Libraries) (D : RegisterDeps) (pods : PodStore D) where
  abbrev Here : Type 0
  Here = Running L (Tweak Rest) range D pods

  -- An informer that lists and watches the compute groups of a namespace, with the options as given.
  abbrev pub IsWatchingGroups : String → SharedInformer (Tweak Rest) → Type 0
  IsWatchingGroups namespace informer =
      (options : ListOptions Rest) (s : R.State)
      → (list_groups_of R informer options s
          ≡ R.do_list (asking R range namespace options options) s)
        × (watch_groups_of R informer options s
            ≡ R.do_watch (asking R range namespace options (record options { watch = true })) s)

  -- What a list or a watch of operators asks for.
  abbrev pub asking_operators :
      String → ListOptions Rest → ListOptions Rest → Request Operator Options Rest
  asking_operators namespace given sent = record {
    verb = get_verb;
    namespace = namespace;
    resource = "datafuseoperators";
    name = none;
    sub_resources = [];
    params = list_params sent;
    timeout = some (timeout_of given);
    body = no_body;
  }

  -- The same for the operators.
  abbrev pub IsWatchingOperators : String → SharedInformer (Tweak Rest) → Type 0
  IsWatchingOperators namespace informer =
      (options : ListOptions Rest) (s : R'.State)
      → (list_operators_of R' informer options s
          ≡ R'.do_list (asking_operators namespace options options) s)
        × (watch_operators_of R' informer options s
            ≡ R'.do_watch (asking_operators namespace options (record options { watch = true })) s)

  -- What runs behind the wiring of NewController.
  abbrev behind :
      Clientset L.rest
      → L.KubeFactory
      → OperatorController L.KubeInformer (Tweak Rest) × Factory (Tweak Rest)
      → Here
  behind client factory (controller, crd_factory) =
      let begun = start (Tweak Rest) range (crd_factory, []) in
      record {
        client = client;
        kube_informers = factory;
        crd_informers = begun.0;
        started = begun.1;
        controller = controller;
        threadiness = pos 12;
        register = new_register_controller D true pods;
      }
