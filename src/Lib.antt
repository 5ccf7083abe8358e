-- ===== src/Lib.antt =====
-- The Datafuse operator: a Kubernetes operator that keeps the compute groups of a Datafuse
-- cluster.
--
-- The program has two controllers. The operator controller
-- (pkg/controllers/operator/operator_controller.go) takes operators and compute groups from two
-- work queues. For an operator it creates its compute groups, and for a compute group it creates a
-- deployment for the leader and for each set of workers, and a service
-- (pkg/controllers/utils/operator_utils.go). The register controller (pkg/controllers/register)
-- watches the pods of these deployments and tells each leader, over HTTP, which nodes are in its
-- cluster.
--
-- Prelude has the tests on numbers and lists that the other files share. Go models what Go gives:
-- integers and their wrap-around (Go/Int), strings.SplitN, strconv.Itoa and strconv.Atoi
-- (Go/Text), maps (Go/Map), errors and panics as values (Go/Result), statements that change a
-- state (Go/Exec), what holds behind such statements (Go/Holds), and what they keep whether they
-- end or not (Go/Keeps). Kube has the objects of the Kubernetes API and, as parameters with their
-- documented behaviour, the libraries that the source calls: metadata functions (Kube/Meta) and
-- the rate limited work queue (Kube/Queue, with the errorHandler that three functions of the
-- source share). Kube/Worker is the loop of a worker on such a queue.
--
-- Api/Types: the custom resources of pkg/apis/datafuse/v1alpha1. Api/Defaults:
-- SetDatafuseOperatorDefault, SetDatafuseComputeGroupDefaults. Api/DeepCopy: the generated copies;
-- Api/Pointers: DeepCopy of the types that are no runtime.Object; Api/ObjectCopies: the lists and
-- DeepCopyObject; Api/Copies has proofs.
--
-- Utils: pkg/controllers/utils/operator_utils.go. Utils/Pods: makePorts, makeEnvs, makeProbe,
-- getMilliCPU, makeResourceRequirements, convertInstanceSpecToPodSpec, MakeFuseQueryPod.
-- Utils/Deployments: makeServicePorts, MakeService, MakeDeployment, AddDeployOwnership.
-- Utils/Groups: IsOperatorCreated, IsComputeGroupCreated, MakeComputeGroup, GetOperatorKey.
-- Utils/Selection, Utils/Ownership and Utils/Resources have proofs.
--
-- Register: pkg/controllers/register. Register/Config: BuildPodConfig. Register/Web: httpParse,
-- postHTTP, getHTTP over a record of net/http and encoding/json. Register/Nodes: the operations of
-- RegistSetter. Register/Listing: ListReadyLeaders, ListReadyWorkers over the informers' store.
-- Register/Process: ListExistedWorkers, ProcessLeader, ProcessReadyWorker, ProcessUnreadyWorker.
-- Register/Work: processNextItem. Register/Loop: the loop over it in Run. Register/Run: Run, as
-- the steps that it takes. Register/Watch: NewRegisterController with the handlers of its
-- informer. Register/Cluster states what a leader's server promises; Register/Server is the server
-- of register_test_utils.go and Register/MockPods the makers of its pods. Register/Diff,
-- Register/History, Register/MockServer, Register/Serving, Register/Converge, Register/Workers,
-- Register/Leaders, Register/RoundTrip and Register/Retry have proofs.
--
-- Operator: pkg/controllers/operator/operator_controller.go. Operator/Deps: the caches, the
-- clients and the event recorder, with Get of
-- pkg/client/listers/datafuse/v1alpha1/datafusecomputegroup.go. Operator/Groups:
-- processNewOperator, syncGroup2, updateOperatorStatus. Operator/Sets: processNewComputeGroup,
-- syncComputeGroup, updateComputeGroupStatus, GetComputeGroupKeys. Operator/Updates:
-- processUpdatedComputeGroup. Operator/Events: handleUnneededDeployments, handleObject and the
-- handlers of compute groups, deployments and services. Operator/Work: the handlers of operators,
-- processNextOperator, processNextComputeGroup. Operator/Loops: runGroupWorker, runOperatorWorker.
-- Operator/Start: NewController, by the informers that it asks for, and Start. Operator/Grouped,
-- Operator/Noted, Operator/Named, Operator/Overwritten, Operator/Cleaned, Operator/Deployed,
-- Operator/Restarted, Operator/LostErrors, Operator/Settle, Operator/Sync, Operator/Adopt,
-- Operator/Makeable, Operator/Kept, Operator/Complete, Operator/Unneeded, Operator/Gone and
-- Operator/Ownership have proofs.
--
-- Client: pkg/client. Client/Informers: the sharedInformerFactory of
-- pkg/client/informers/externalversions/factory.go with generic.go and the informers of both
-- types; an informer is what it was made for, and Start lists the types whose informers it runs.
-- Client/Listers: the listers of pkg/client/listers/datafuse/v1alpha1. Client/Requests: the typed
-- clients of pkg/client/clientset/versioned/typed/datafuse/v1alpha1, as the requests that they
-- send, for both resources at once; Client/Operators: the methods at the resource of operators.
-- Client/Watching: ListFunc and WatchFunc of the informers, over the typed clients.
-- Client/Clientset: clientset.go and datafuse_client.go of pkg/client/clientset/versioned.
-- Client/Fakes: the fake clients, over the object tracker of client-go. Client/Scope,
-- Client/Factory, Client/Sharing and Client/Started have proofs. The operator controller reads the
-- caches through its own parameters (Operator/Deps), not through Client.
--
-- Program: main.go and utils/kube.go. Program/Main: the flags, buildConfig, the two factories and
-- main, which builds the clients, wires both controllers and starts the informers; what runs
-- behind it is its result, and log.Fatal an error. Program/Kubeconfig: GetKubeConfigLocation,
-- GetK8sConfig, GetK8sClient. Program/Watches has proofs.
--
-- Tests has concrete libraries, pods and groups, and the theorems at them.
--
-- State is passed through: the register controller's state is that of the servers that it calls,
-- the operator controller's is the cluster with its caches and the events that were recorded.
-- Errors are values and so are panics: a nil pointer that is followed, an index out of range. The
-- informers' store stands still during one call of a handler. A queue knows an object by its
-- pointer, so that an object whose status is defaulted is the same item. In the controllers a deep
-- copy is the value itself. A map is a list of entries; its copy keeps their order, and where a
-- range over a map matters its order is a parameter. fmt.Errorf(msg) is taken for messages without
-- a percent sign. Logs are left out.
--
-- Printing a number takes as fuel the number plus one, and each round takes a digit off. The loops
-- of the workers take a number of rounds as fuel; more rounds than there are pending objects are
-- enough once a queue of the operator controller is shut down; the queue of the register
-- controller never is, so that no number is enough for its loop. Every other recursion is
-- structural.
--
-- Not modelled: how goroutines interleave (Start takes what happens to the queues meanwhile as a
-- parameter), the event broadcasters, the signal handler, the fake clientset, registration in the
-- scheme, and the end to end tests: they are libraries' work, generated, or tests.
pub mod Prelude
pub mod Go
pub mod Kube
pub mod Api
pub mod Constants
pub mod Client
pub mod Utils
pub mod Register
pub mod Operator
pub mod Program
pub mod Tests
