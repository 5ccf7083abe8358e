-- ===== src/Register/Leaders.antt =====
-- What ProcessReadyWorker and ProcessUnreadyWorker do when there are several ready leaders
-- (pkg/controllers/register/register_controller.go).
use datafuse_operator.Prelude.{
  String, Bool, ◌≡◌, refl, not, ◌&&◌, ◌||◌, some, List, [], ◌∷◌, ◌==◌, All, subst, sym, ap, ◌∙◌,
}
use datafuse_operator.Go.Map.{get}
use datafuse_operator.Go.Result.{Result, ok}
use datafuse_operator.Go.Exec.{Exec, for_each}
use datafuse_operator.Constants
use datafuse_operator.Register.Config.{ClusterNodeRequest, FuseQueryConfigs, build_pod_config}
use datafuse_operator.Register.Nodes.{is_group_leader, pod_key, pod_address, add_node, remove_node}
use datafuse_operator.Register.Listing.{
  RegisterDeps, APod, PodStore, RegisterController, ready_pods, list_ready_leaders,
}
use datafuse_operator.Register.Process.{
  NetState, for_leaders, process_ready_worker, process_unready_worker,
}
use datafuse_operator.Register.Cluster.{
  IsClusterApi, IsServable, listed, Lists-add_node, Lists-remove_node,
}
use datafuse_operator.Register.Serving.{IsServing, all_ns_store_lem}

module _ (D : RegisterDeps) (lists : APod D → NetState D → List ClusterNodeRequest) where
  -- The names on a leader's list behind a run, by those before it.
  abbrev pub Changed : (String → Bool → Bool) → NetState D → NetState D → APod D → Type 0
  Changed change s t l = (k : String) → listed (lists l t) k ≡ change k (listed (lists l s) k)

  module _ (act : APod D → Exec (NetState D) (Unit {0})) where
    -- A call on a leader leaves another leader's list as it was.
    abbrev pub Spares : APod D → APod D → Type 0
    Spares l l' = (s : NetState D) → lists l' (act l s).1 ≡ lists l' s

    abbrev pub AllApart : List (APod D) → Type 0
    AllApart [] = Unit
    AllApart (l ∷ ls) = All (λ l'. Spares l l' × Spares l' l) ls × AllApart ls

  module _ (act : APod D → Exec (NetState D) (Unit {0})) (change : String → Bool → Bool) where
    -- A call on a leader changes the names on its list, and it ends without an error.
    abbrev Acts : APod D → Type 0
    Acts l = (s : NetState D) → ((act l s).0 ≡ ok tt) × Changed change s (act l s).1 l

    for_each-cons :
        (l : APod D) (ls : List (APod D)) (s : NetState D)
        → (act l s).0 ≡ ok tt
        → for_each act (l ∷ ls) s ≡ for_each act ls (act l s).1
    unfolding for_each
    for_each-cons l ls s ran = rw ran refl

    for_each-Spares :
        (l : APod D) (ls : List (APod D)) (s : NetState D)
        → All Acts ls
        → All (λ l'. Spares act l l' × Spares act l' l) ls
        → lists l (for_each act ls s).1 ≡ lists l s
    unfolding for_each
    for_each-Spares l [] s _ _ = refl
    for_each-Spares l (m ∷ ls) s (acts, rest) ((_, spares), apart) =
        rw (acts s).0 (for_each-Spares l ls (act m s).1 rest apart ∙ spares s)

    Changed-shift :
        (l : APod D) (ls : List (APod D)) (s s' t : NetState D)
        → All (λ l'. Spares act l l' × Spares act l' l) ls
        → s' ≡ (act l s).1
        → All (Changed change s' t) ls
        → All (Changed change s t) ls
    Changed-shift l [] s s' t _ _ _ = tt
    Changed-shift l (m ∷ ls) s s' t ((spares, _), apart) e (c, cs) = (
      λ k. c k ∙ ap (λ ns. change k (listed ns k)) (ap (lists m) e ∙ spares s),
      Changed-shift l ls s s' t apart e cs,
    )

    for_each-Changed :
        (ls : List (APod D)) (s : NetState D)
        → All Acts ls
        → AllApart act ls
        → ((for_each act ls s).0 ≡ ok tt) × All (Changed change s (for_each act ls s).1) ls
    unfolding for_each
    for_each-Changed [] s _ _ = (refl, tt)
    for_each-Changed (l ∷ ls) s (acts, rest) (apart, aparts) =
        let (ran, changes) = acts s in
        let (ends, changed) = for_each-Changed ls (act l s).1 rest aparts in
        let still = for_each-Spares l ls (act l s).1 rest apart in
        subst
          (λ (r : Result (Unit {0}) × NetState D).
            (r.0 ≡ ok tt) × All (Changed change s r.1) (l ∷ ls))
          (sym (for_each-cons l ls s ran))
          (
            ends,
            (
              λ k. ap (λ ns. listed ns k) still ∙ changes k,
              Changed-shift l ls s (act l s).1 _ apart refl changed,
            ),
          )

  module _ (rc : RegisterController D) (store : PodStore D) (serving : IsServing D rc store) where
    abbrev pub leaders : List (APod D)
    leaders = ready_pods D (is_group_leader D.quantities) store.list

    list_ready_leaders_lem : (group_key : String) → list_ready_leaders D rc group_key ≡ ok leaders
    unfolding list_ready_leaders
    list_ready_leaders_lem group_key =
        rw (all_ns_store_lem D rc store serving, list_ready_leaders) (rw serving.all_ns refl)

    process_ready_worker-eq :
        (p : APod D) (group_key : String) (s : NetState D)
        → get Constants.compute_group_label p.meta.labels ≡ some group_key
        → process_ready_worker D rc p s
          ≡ for_each (λ l. add_node D.quantities D.meta D.web l p) leaders s
    unfolding process_ready_worker for_leaders
    process_ready_worker-eq p group_key s label =
        rw (label, for_leaders) (rw list_ready_leaders_lem (rw serving.all_ns refl))

    process_unready_worker-eq :
        (p : APod D) (group_key : String) (s : NetState D)
        → get Constants.compute_group_label p.meta.labels ≡ some group_key
        → process_unready_worker D rc p s
          ≡ for_each (λ l. remove_node D.quantities D.meta D.web l p) leaders s
    unfolding process_unready_worker for_leaders
    process_unready_worker-eq p group_key s label =
        rw (label, for_leaders) (rw list_ready_leaders_lem (rw serving.all_ns refl))

    -- Each leader is configured and its server keeps the cluster API on a list of its own.
    abbrev pub IsLeaderApi : APod D → Type 0
    IsLeaderApi l =
        (config : FuseQueryConfigs) × (build_pod_config D.quantities l ≡ ok config)
        × IsClusterApi D.web (pod_address D.quantities l config.http_port) (lists l)

    Acts-all :
        (act : APod D → Exec (NetState D) (Unit {0})) (change : String → Bool → Bool)
        (ls : List (APod D))
        → ((l : APod D) → IsLeaderApi l → Acts act change l)
        → All IsLeaderApi ls
        → All (Acts act change) ls
    Acts-all act change [] f _ = tt
    Acts-all act change (l ∷ ls) f (h, hs) = (f l h, Acts-all act change ls f hs)

    -- When the controller watches all namespaces and knows its pods, each ready leader of the store is
    -- configured and its server keeps the cluster API on a list of its own, and adding the worker to a
    -- leader leaves the other leaders' lists as they were: ProcessReadyWorker on a worker with a group
    -- label that says how it is reached ends without an error, and on the list of every ready leader,
    -- of whatever group, it adds the worker's key and changes no other name.
    pub process_ready_worker-all :
        (p : APod D) (group_key : String) (s : NetState D)
        → get Constants.compute_group_label p.meta.labels ≡ some group_key
        → IsServable D p
        → All IsLeaderApi leaders
        → AllApart (λ l. add_node D.quantities D.meta D.web l p) leaders
        → ((process_ready_worker D rc p s).0 ≡ ok tt)
          × All
              (Changed
                (λ k old. (pod_key D.quantities p == k) || old)
                s
                (process_ready_worker D rc p s).1)
              leaders
    process_ready_worker-all p group_key s label servable apis apart =
        let act = λ (l : APod D). add_node D.quantities D.meta D.web l p in
        let change = λ (k : String) (old : Bool). (pod_key D.quantities p == k) || old in
        rw (process_ready_worker-eq p group_key s label) (
          for_each-Changed act change leaders s
            (Acts-all act change leaders
              (λ l (config, configured, api).
                λ t. Lists-add_node D l config configured (lists l) api p t servable)
              apis)
            apart)

    -- When the controller watches all namespaces and knows its pods, each ready leader of the store is
    -- configured and its server keeps the cluster API on a list of its own, and removing the worker from
    -- a leader leaves the other leaders' lists as they were: ProcessUnreadyWorker on a worker with a
    -- group label that says how it is reached ends without an error, and on the list of every ready
    -- leader, of whatever group, it removes the worker's key and changes no other name.
    pub process_unready_worker-all :
        (p : APod D) (group_key : String) (s : NetState D)
        → get Constants.compute_group_label p.meta.labels ≡ some group_key
        → IsServable D p
        → All IsLeaderApi leaders
        → AllApart (λ l. remove_node D.quantities D.meta D.web l p) leaders
        → ((process_unready_worker D rc p s).0 ≡ ok tt)
          × All
              (Changed
                (λ k old. not (pod_key D.quantities p == k) && old)
                s
                (process_unready_worker D rc p s).1)
              leaders
    process_unready_worker-all p group_key s label servable apis apart =
        let act = λ (l : APod D). remove_node D.quantities D.meta D.web l p in
        let change = λ (k : String) (old : Bool). not (pod_key D.quantities p == k) && old in
        rw (process_unready_worker-eq p group_key s label) (
          for_each-Changed act change leaders s
            (Acts-all act change leaders
              (λ l (config, configured, api).
                λ t. Lists-remove_node D l config configured (lists l) api p t servable)
              apis)
            apart)
