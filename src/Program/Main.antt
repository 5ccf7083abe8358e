-- ===== src/Program/Main.antt =====
-- main.go: the flags, the clients, the factories of informers and the two controllers.
use datafuse_operator.Prelude.{◌*◌, String, Bool, true, false, List, [], ◌∷◌, ◌==◌, if◌then◌else◌}
use datafuse_operator.Go.Int.{ℤ, pos}
use datafuse_operator.Go.Map.{Entries}
use datafuse_operator.Go.Result.{Result, GoError, ok, ◌>>=◌}
use datafuse_operator.Constants
use datafuse_operator.Client.Requests.{second}
use datafuse_operator.Client.Informers.{
  SharedInformer, Factory, with_namespace, new_shared_informer_factory,
  new_shared_informer_factory_with_options, start,
}
use datafuse_operator.Client.Clientset.{RestLibrary, Config, Clientset, new_for_config}
use datafuse_operator.Register.Listing.{RegisterDeps, PodStore, RegisterController}
use datafuse_operator.Register.Watch.{new_register_controller}
use datafuse_operator.Operator.Start.{OperatorController, new_controller}
use datafuse_operator.Program.Kubeconfig.{wrap}

-- The values of the flags.
pub record Flags : Type 0 where
  pub master : String
  pub controller_threads : ℤ
  pub resync_interval : ℤ
  pub namespace : String
  pub metrics_addr : String
  pub enable_leader_election : Bool
  pub kube_config : String

-- The values when no flag is given.
abbrev pub default_flags : Flags
default_flags = record {
  master = "";
  controller_threads = pos 10;
  resync_interval = pos 30;
  namespace = Constants.namespace_all;
  metrics_addr = ":8080";
  enable_leader_election = false;
  kube_config = "";
}

-- `time.Second * 30`
abbrev pub thirty_seconds : ℤ
thirty_seconds = pos (second * 30)

-- What main calls of client-go, besides the REST library.
pub record Libraries : Type 1 where
  pub rest : RestLibrary
  pub build_config_from_flags : String → String → Result (Config rest)
  pub in_cluster_config : Result (Config rest)
  pub message : GoError → String
  pub KubeClient : Type 0
  pub kube_new_for_config : Config rest → Result KubeClient
  -- kubeinformers.NewSharedInformerFactory, and with kubeinformers.WithNamespace
  pub KubeFactory : Type 0
  pub KubeInformer : Type 0
  pub kube_factory : KubeClient → ℤ → KubeFactory
  pub kube_factory_with_namespace : KubeClient → ℤ → String → KubeFactory
  pub deployments : KubeFactory → KubeInformer
  pub services : KubeFactory → KubeInformer

module _ (L : Libraries) (Tweak : Type 0)
    (range : Entries (SharedInformer Tweak) → Entries (SharedInformer Tweak)) (D : RegisterDeps)
    (pods : PodStore D) where
  -- buildConfig
  unfoldable pub build_config : String → String → Result (Config L.rest)
  build_config master_url kube_config =
      if kube_config == ""
      then L.in_cluster_config
      else L.build_config_from_flags master_url kube_config

  -- kubeInformerFactory
  unfoldable pub kube_informer_factory : String → L.KubeClient → L.KubeFactory
  kube_informer_factory namespace client =
      if namespace == Constants.namespace_all
      then L.kube_factory client thirty_seconds
      else L.kube_factory_with_namespace client thirty_seconds namespace

  -- crdInformerFactory
  unfoldable pub crd_informer_factory : String → Factory Tweak
  unfolding new_shared_informer_factory new_shared_informer_factory_with_options
  crd_informer_factory namespace =
      if namespace == Constants.namespace_all
      then new_shared_informer_factory Tweak thirty_seconds
      else new_shared_informer_factory_with_options Tweak thirty_seconds
          (with_namespace Tweak namespace ∷ [])

  -- What runs behind main: the clients, the factories, the informers of the custom resources that were
  -- started, the two controllers, and the number of workers that Start is given.
  pub record Running : Type 0 where
    pub client : Clientset L.rest
    pub kube_informers : L.KubeFactory
    pub crd_informers : Factory Tweak
    pub started : List String
    pub controller : OperatorController L.KubeInformer Tweak
    pub threadiness : ℤ
    pub register : RegisterController D

  -- main; an error is the text of log.Fatal, which ends the program. The pods are those of the informer
  -- that NewRegisterController makes, whose error is nil.
  unfoldable pub main : Flags → Result Running
  unfolding build_config kube_informer_factory crd_informer_factory new_controller start
      new_register_controller
  main flags = do
    kube_config ←
        wrap "Error building kubernetes config: " L.message
          (build_config flags.master flags.kube_config)
    kube_client ←
        wrap "Error building kubernetes client: " L.message (L.kube_new_for_config kube_config)
    crd_client ← wrap "Error building crd client: " L.message (new_for_config L.rest kube_config)
    let kube_factory = kube_informer_factory flags.namespace kube_client
    let crd_factory = crd_informer_factory flags.namespace
    let wired =
        new_controller L.KubeInformer Tweak (L.deployments kube_factory) (L.services kube_factory)
          crd_factory
    let begun = start Tweak range (wired.1, [])
    ok (record {
      client = crd_client;
      kube_informers = kube_factory;
      crd_informers = begun.0;
      started = begun.1;
      controller = wired.0;
      threadiness = pos 12;
      register = new_register_controller D true pods;
    })
