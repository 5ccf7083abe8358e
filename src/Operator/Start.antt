-- ===== src/Operator/Start.antt =====
-- NewController and Start of pkg/controllers/operator/operator_controller.go: the informers of the
-- controller, its workers, and the end of its queues.
use datafuse_operator.Prelude.{
  ℕ, zero, suc, List, [], ◌∷◌, ◌++◌, some, Bool, if◌then◌else◌, ◌≡◌, arith, Bool-cases, inl, inr,
}
use datafuse_operator.Go.Result.{Result, ok, err, errorf}
use datafuse_operator.Kube.Queue.{WorkQueue}
use datafuse_operator.Kube.Worker.{IsDraining}
use datafuse_operator.Client.Informers.{
  SharedInformer, Factory, compute_group_informer, operator_informer,
}
use datafuse_operator.Operator.Deps.{OperatorDeps, World}
use datafuse_operator.Operator.Events.{GroupObject}
use datafuse_operator.Operator.Work.{OperatorObject}
use datafuse_operator.Operator.Loops.{
  run_group_worker, run_operator_worker, run_group_worker-ends, run_operator_worker-ends,
}

-- What runs in a goroutine.
pub data Routine : Type 0 where
  group_worker : Routine
  operator_worker : Routine

-- `for i := 0; i < threadiness; i++ { go ... }`
unfoldable pub launch : Routine → ℕ → List Routine
launch routine zero = []
launch routine (suc n) = routine ∷ launch routine n

-- An informer of client-go for deployments or services, and the informers of the custom resources.
module _ (KubeInformer Tweak : Type 0) where
  pub data AnyInformer : Type 0 where
    kube : KubeInformer → AnyInformer
    crd : SharedInformer Tweak → AnyInformer

  -- OperatorController, by the informers behind its listers and its HasSynced functions
  pub record OperatorController : Type 0 where
    pub deployment_lister : KubeInformer
    pub service_lister : KubeInformer
    pub group_lister : SharedInformer Tweak
    pub operator_lister : SharedInformer Tweak
    pub group_synced : SharedInformer Tweak
    pub operator_synced : SharedInformer Tweak
    pub deployments_synced : KubeInformer
    pub service_synced : KubeInformer

  -- NewController; each lister, HasSynced and AddEventHandler asks the factory for its informer.
  unfoldable pub new_controller :
      KubeInformer → KubeInformer → Factory Tweak → OperatorController × Factory Tweak
  new_controller deploy_informer service_informer f =
      let (group_lister, f₁) = compute_group_informer Tweak f in
      let (operator_lister, f₂) = operator_informer Tweak f₁ in
      let (group_synced, f₃) = compute_group_informer Tweak f₂ in
      let (operator_synced, f₄) = operator_informer Tweak f₃ in
      let (_, f₅) = compute_group_informer Tweak f₄ in
      let (_, f₆) = operator_informer Tweak f₅ in
      (
        record {
          deployment_lister = deploy_informer;
          service_lister = service_informer;
          group_lister = group_lister;
          operator_lister = operator_lister;
          group_synced = group_synced;
          operator_synced = operator_synced;
          deployments_synced = deploy_informer;
          service_synced = service_informer;
        },
        f₆,
      )

  -- Start: what it answers, the goroutines that it starts, and the queues behind it. The queues change
  -- while the workers run, until the stop signal, as `meanwhile` says.
  module _ (wait_for_cache_sync : List AnyInformer → Bool) (GroupQueue : WorkQueue GroupObject)
      (OperatorQueue : WorkQueue OperatorObject)
      (shut_down_groups : GroupQueue.State → GroupQueue.State)
      (shut_down_operators : OperatorQueue.State → OperatorQueue.State)
      (meanwhile : List Routine
        → GroupQueue.State × OperatorQueue.State
        → GroupQueue.State × OperatorQueue.State) where
    -- The deferred calls.
    unfoldable pub shut_down :
        GroupQueue.State × OperatorQueue.State → GroupQueue.State × OperatorQueue.State
    shut_down (groups, operators) = (shut_down_groups groups, shut_down_operators operators)

    unfoldable pub start :
        OperatorController
        → ℕ
        → GroupQueue.State × OperatorQueue.State
        → Result (Unit {0}) × List Routine × (GroupQueue.State × OperatorQueue.State)
    unfolding launch shut_down
    start c threadiness queues =
        let routines = launch group_worker threadiness ++ launch operator_worker threadiness in
        if wait_for_cache_sync
          (kube c.deployments_synced ∷ crd c.group_synced ∷ crd c.operator_synced ∷ [])
        then (ok tt, routines, shut_down (meanwhile routines queues))
        else (err (errorf "failed to wait for caches to sync"), [], shut_down queues)

    -- When ShutDown shuts the queues down and they then drain as documented: however Start ends, with the
    -- caches filled or with the error that they are not, and whatever happened to the queues while the
    -- workers ran, a worker of the groups and a worker of the operators end behind it, in any state of
    -- the cluster, within one round more than what is pending.
    pub start-ends :
        (D : OperatorDeps) (groups : IsDraining GroupQueue) (operators : IsDraining OperatorQueue)
        → ((q : GroupQueue.State) → groups.IsShutDown (shut_down_groups q))
        → ((q : OperatorQueue.State) → operators.IsShutDown (shut_down_operators q))
        → (c : OperatorController) (threadiness : ℕ)
          (queues : GroupQueue.State × OperatorQueue.State) (w : World D)
        → ((out : Result (Unit {0}) × (GroupQueue.State × World D)) × (run_group_worker D GroupQueue
                (suc (groups.pending (start c threadiness queues).2.0))
                ((start c threadiness queues).2.0, w)
              ≡ some out))
          × ((out : Result (Unit {0}) × (OperatorQueue.State × World D)) × (run_operator_worker D
                  OperatorQueue
                  (suc (operators.pending (start c threadiness queues).2.1))
                  ((start c threadiness queues).2.1, w)
                ≡ some out))
    unfolding start shut_down
    start-ends D groups operators shuts_groups shuts_operators c threadiness queues w =
        let both : groups.IsShutDown (start c threadiness queues).2.0
            × operators.IsShutDown (start c threadiness queues).2.1 =
          elim (Bool-cases (
            wait_for_cache_sync
              (kube c.deployments_synced ∷ crd c.group_synced ∷ crd c.operator_synced ∷ []))) [
                | inl filled ↦ rw filled (shuts_groups _, shuts_operators _)
                | inr empty ↦ rw empty (shuts_groups _, shuts_operators _)
              ] in
        (
          run_group_worker-ends D GroupQueue groups (start c threadiness queues).2.0 w _ both.0
              (omega arith),
          run_operator_worker-ends D OperatorQueue operators (start c threadiness queues).2.1 w _
              both.1 (omega arith),
        )
