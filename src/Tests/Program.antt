-- ===== src/Tests/Program.antt =====
-- The program with small libraries: a clientset, the wiring of main and the end of Start.
use datafuse_operator.Prelude.{
  ℕ, suc, String, Bool, true, false, not, nat_eq, none, some, List, [], ◌∷◌, ◌==◌, ◌≡◌, refl, arith,
  if◌then◌else◌,
}
use datafuse_operator.Go.Int.{ℤ, pos}
use datafuse_operator.Go.Result.{Result, ok, err, errorf}
use datafuse_operator.Kube.Queue.{WorkQueue}
use datafuse_operator.Kube.Worker.{IsDraining}
use datafuse_operator.Client.Requests.{Request, RestClient}
use datafuse_operator.Api.Types.{Operator}
use datafuse_operator.Client.Informers.{SharedInformer, compute_group_type, operator_type}
use datafuse_operator.Client.Watching.{Tweak}
use datafuse_operator.Client.Clientset.{
  RestLibrary, Config, Clientset, or_die, new_for_config, new_for_config_or_die,
  new_for_config_or_die-new_for_config,
}
use datafuse_operator.Operator.Deps.{World}
use datafuse_operator.Operator.Events.{GroupObject, group_pointer, other}
use datafuse_operator.Operator.Work.{OperatorObject, operator_pointer}
use datafuse_operator.Operator.Loops.{run_group_worker, run_operator_worker}
use datafuse_operator.Operator.Start.{
  AnyInformer, kube, crd, OperatorController, Routine, start, start-ends,
}
use datafuse_operator.Program.Main.{Flags, default_flags, Libraries}
use datafuse_operator.Program.Watches.{IsKubeLibrary}
use datafuse_operator.Tests.Cluster as Cluster
use datafuse_operator.Tests.Deployments as Deployments
use datafuse_operator.Tests.Queues as Queues
use datafuse_operator.Tests.Loops.{take_first, size, takes_first}

-- A REST library whose clients are their configurations' hosts.
abbrev rest : RestLibrary
rest = record {
  Qps = ℕ;
  RateLimiter = ℤ;
  Codec = Unit;
  Rest = String;
  Client = String;
  Discovery = String;
  is_positive = λ n. not (nat_eq n 0);
  new_token_bucket_rate_limiter = λ qps burst. burst;
  default_kubernetes_user_agent = "agent";
  without_conversion = tt;
  rest_client_for = λ c. ok c.rest;
  new_discovery_client_for_config = λ c. ok c.rest;
  new_discovery_client_for_config_or_die = λ c. ok c.rest;
  new_discovery_client = λ c. c;
}

abbrev config : Config rest
config = record {
  rate_limiter = none;
  qps = 0;
  burst = pos 0;
  group_version = none;
  api_path = "";
  negotiated_serializer = none;
  user_agent = "";
  rest = "localhost";
}

new_for_config_or_die-new_for_config_example :
    new_for_config_or_die rest config ≡ or_die (new_for_config rest config)
new_for_config_or_die-new_for_config_example =
    new_for_config_or_die-new_for_config rest config (λ c. refl) refl

abbrev libraries : Libraries
libraries = record {
  rest = rest;
  build_config_from_flags = λ master path. err (errorf "no file");
  in_cluster_config = ok config;
  message = λ e. "error";
  KubeClient = String;
  kube_new_for_config = λ c. ok c.rest;
  KubeFactory = String;
  KubeInformer = String × String;
  kube_factory = λ client resync. "";
  kube_factory_with_namespace = λ client resync namespace. namespace;
  deployments = λ f. ("deployments", f);
  services = λ f. ("services", f);
}

-- The namespace of tests, by the flag.
abbrev flags : Flags
flags = record default_flags { namespace = "tests" }

abbrev client : Clientset rest
client = record { discovery_client = "localhost"; datafuse = record { rest_client = "localhost" } }

-- A queue that takes objects in until it is shut down.
abbrev open_queue : (Item : Type 0) → WorkQueue Item
open_queue Item = record {
  State = Bool × List Item;
  next = λ s. ((take_first s.1).0, (s.0, (take_first s.1).1));
  done = λ _ s. s;
  forget = λ _ s. s;
  add = λ o s. if s.0 then s else (s.0, o ∷ s.1);
  add_rate_limited = λ o s. if s.0 then s else (s.0, o ∷ s.1);
  num_requeues = λ _ _. 0;
}

open_queue-IsDraining : (Item : Type 0) → IsDraining (open_queue Item)
open_queue-IsDraining Item = record {
  IsShutDown = λ s. s.0 ≡ true;
  pending = λ s. size s.1;
  takes = λ s o shut got. (shut, (takes_first s.1 o got).1);
  dones = λ s o shut. (shut, omega arith);
  forgets = λ s o shut. (shut, omega arith);
  ignores = λ s o shut. rw shut (refl, omega arith);
}

abbrev close : {Item : Type 0} → Bool × List Item → Bool × List Item
close s = (true, s.1)

-- A group is added while the workers run.
abbrev meanwhile :
    List Routine
    → (Bool × List GroupObject) × (Bool × List OperatorObject)
    → (Bool × List GroupObject) × (Bool × List OperatorObject)
meanwhile _ (groups, operators) =
    ((groups.0, group_pointer Deployments.group ∷ groups.1), operators)

abbrev informer_of : String → SharedInformer (Tweak String)
informer_of type = record { object_type = type; namespace = ""; resync = pos 0; tweak = none }

abbrev controller : OperatorController String (Tweak String)
controller = record {
  deployment_lister = "deployments";
  service_lister = "services";
  group_lister = informer_of compute_group_type;
  operator_lister = informer_of operator_type;
  group_synced = informer_of compute_group_type;
  operator_synced = informer_of operator_type;
  deployments_synced = "deployments";
  service_synced = "services";
}

abbrev queues : (Bool × List GroupObject) × (Bool × List OperatorObject)
queues = ((false, other ∷ []), (false, operator_pointer Queues.op ∷ []))

abbrev quiet : World Deployments.deps
quiet = record { cluster = []; events = [] }

abbrev left : (Bool × List GroupObject) × (Bool × List OperatorObject)
left =
    (start String (Tweak String) (λ _. true) (open_queue GroupObject) (open_queue OperatorObject)
      close close meanwhile controller 12 queues).2

-- An informer is its resource and the namespace that it watches.
libraries-IsKubeLibrary : IsKubeLibrary libraries
libraries-IsKubeLibrary = record {
  watched = λ informer. informer.1;
  deployments_everywhere = λ client resync. refl;
  services_everywhere = λ client resync. refl;
  deployments_within = λ client resync namespace. refl;
  services_within = λ client resync namespace. refl;
}

-- A REST client for operators.
abbrev noting_operators : RestClient Operator Unit String
noting_operators = record {
  State = List (Request Operator Unit String);
  Objects = List Operator;
  Watcher = Unit;
  do_object = λ r s. ((Queues.op, none), r ∷ s);
  do_list = λ r s. (([], none), r ∷ s);
  do_error = λ r s. (none, r ∷ s);
  do_watch = λ r s. ((tt, none), r ∷ s);
}

-- Is the cache of compute groups among those that are waited for?
abbrev waiting : List (AnyInformer (String × String) (Tweak String)) → Bool
waiting [] = false
waiting (kube _ ∷ informers) = waiting informers
waiting (crd informer ∷ informers) = informer.object_type == compute_group_type

start-ends_example :
    ((out : Result (Unit {0}) × ((Bool × List GroupObject) × World Deployments.deps))
      × (run_group_worker Deployments.deps
            (open_queue GroupObject)
            (suc (size left.0.1))
            (left.0, quiet)
          ≡ some out))
    × ((out : Result (Unit {0}) × ((Bool × List OperatorObject) × World Deployments.deps))
        × (run_operator_worker Deployments.deps
              (open_queue OperatorObject)
              (suc (size left.1.1))
              (left.1, quiet)
            ≡ some out))
unfolding open_queue-IsDraining
start-ends_example =
    start-ends String (Tweak String) (λ _. true) (open_queue GroupObject)
      (open_queue OperatorObject) close close meanwhile Deployments.deps
      (open_queue-IsDraining GroupObject) (open_queue-IsDraining OperatorObject) (λ q. refl)
      (λ q. refl) controller 12 queues quiet
