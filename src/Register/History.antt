-- ===== src/Register/History.antt =====
-- What the leaders know after the register controller has handled a sequence of workers, ready or not
-- (processNextItem of pkg/controllers/register/register_controller.go).
use datafuse_operator.Prelude.{
  String, Bool, true, false, not, ◌&&◌, ◌||◌, some, List, [], ◌∷◌, ◌==◌, ◌≡◌, refl, ap, ◌∙◌, arith,
  if◌then◌else◌, All, Bool-cases, inl, inr,
}
use datafuse_operator.Go.Map.{get}
use datafuse_operator.Constants
use datafuse_operator.Kube.Queue.{WorkQueue}
use datafuse_operator.Register.Config.{ClusterNodeRequest}
use datafuse_operator.Register.Nodes.{
  is_group_worker, is_group_leader-follower, pod_key, add_node, remove_node,
}
use datafuse_operator.Register.Listing.{
  RegisterDeps, APod, Object, pod, PodStore, RegisterController,
}
use datafuse_operator.Register.Process.{NetState, process_unready_worker}
use datafuse_operator.Register.Work.{process_pod, process_object}
use datafuse_operator.Register.Cluster.{IsServable, listed}
use datafuse_operator.Register.Serving.{IsServing}
use datafuse_operator.Register.Leaders.{
  Changed, AllApart, leaders, IsLeaderApi, process_ready_worker-all, process_unready_worker-all,
}
use datafuse_operator.Register.Watch.{process_pod-ready}

module _ (D : RegisterDeps) where
  -- The registry as it should be: whether a name is on it, after workers that were seen in turn. A
  -- worker is on it just when it was ready the last time.
  unfoldable pub registered : List (APod D) → String → Bool → Bool
  registered [] k old = old
  registered (p ∷ ps) k old =
      registered ps k (if pod_key D.quantities p == k then D.is_pod_ready p else old)

  process_pod-unready :
      (rc : RegisterController D) (p : APod D) (net : NetState D)
      → D.is_pod_ready p ≡ false
      → is_group_worker D.quantities p ≡ true
      → process_pod D rc p net ≡ some (process_unready_worker D rc p net)
  unfolding process_pod
  process_pod-unready rc p net unready works =
      rw (unready, is_group_leader-follower D.quantities p works, works) refl

  module _ (lists : APod D → NetState D → List ClusterNodeRequest) where
    Changed-trans :
        (ps : List (APod D)) (p : APod D) (s t u : NetState D) (ls : List (APod D))
        → All (Changed D lists (registered (p ∷ [])) s t) ls
        → All (Changed D lists (registered ps) t u) ls
        → All (Changed D lists (registered (p ∷ ps)) s u) ls
    unfolding registered
    Changed-trans ps p s t u [] _ _ = tt
    Changed-trans ps p s t u (l ∷ ls) (c, cs) (d, ds) =
        (λ k. d k ∙ ap (registered ps k) (c k), Changed-trans ps p s t u ls cs ds)

    Changed-refl :
        (s : NetState D) (ls : List (APod D)) → All (Changed D lists (registered []) s s) ls
    unfolding registered
    Changed-refl s [] = tt
    Changed-refl s (l ∷ ls) = (λ k. refl, Changed-refl s ls)

    Changed-weaken :
        (f g : String → Bool → Bool) (s t : NetState D) (ls : List (APod D))
        → ((k : String) (old : Bool) → f k old ≡ g k old)
        → All (Changed D lists f s t) ls
        → All (Changed D lists g s t) ls
    Changed-weaken f g s t [] e _ = tt
    Changed-weaken f g s t (l ∷ ls) e (c, cs) =
        (λ k. c k ∙ e k (listed (lists l s) k), Changed-weaken f g s t ls e cs)

    module _ (Q : WorkQueue (Object D)) (rc : RegisterController D) (store : PodStore D)
        (serving : IsServing D rc store) where
      -- The pods in the order in which the queue gives them out.
      unfoldable pub process_objects : List (APod D) → Q.State × NetState D → Q.State × NetState D
      process_objects [] s = s
      process_objects (p ∷ ps) (q, net) =
          let (_, q', net') = process_object D Q rc (pod p) q net in process_objects ps (q', net')

      -- A worker of a group that says how it is reached, and whose registration with a leader leaves
      -- the other leaders' lists as they were.
      pub record IsFollower (p : APod D) : Type 0 where
        pub works : is_group_worker D.quantities p ≡ true
        pub group_key : String
        pub grouped : get Constants.compute_group_label p.meta.labels ≡ some group_key
        pub servable : IsServable D p
        pub add_apart :
            AllApart D lists
              (λ l. add_node D.quantities D.meta D.web l p)
              (leaders D lists rc store serving)
        pub remove_apart :
            AllApart D lists
              (λ l. remove_node D.quantities D.meta D.web l p)
              (leaders D lists rc store serving)

      module _
          (apis : All
            (IsLeaderApi D lists rc store serving)
            (leaders D lists rc store serving)) where
        process_object-Changed :
            (p : APod D) (q : Q.State) (net : NetState D)
            → IsFollower p
            → All
                (Changed D lists (registered (p ∷ [])) net (process_object D Q rc (pod p) q net).2)
                (leaders D lists rc store serving)
        unfolding process_object registered
        process_object-Changed p q net f = elim (Bool-cases (D.is_pod_ready p)) [
          | inl ready ↦
              rw (process_pod-ready D rc p net ready f.works, process_object)
                (Changed-weaken (λ (k : String) (old : Bool). (pod_key D.quantities p == k) || old)
                  (registered (p ∷ [])) net _ (leaders D lists rc store serving)
                  (λ k old. ground (arith, ready))
                  (process_ready_worker-all D lists rc store serving p f.group_key net f.grouped
                    f.servable apis f.add_apart).1)
          | inr unready ↦
              rw (process_pod-unready rc p net unready f.works, process_object)
                (Changed-weaken
                  (λ (k : String) (old : Bool). not (pod_key D.quantities p == k) && old)
                  (registered (p ∷ [])) net _ (leaders D lists rc store serving)
                  (λ k old. ground (arith, unready))
                  (process_unready_worker-all D lists rc store serving p f.group_key net f.grouped
                    f.servable apis f.remove_apart).1)
        ]

        -- When the controller watches all namespaces and knows its pods, and each ready leader of the
        -- store is configured and its server keeps the cluster API on a list of its own: take any
        -- workers that have a group label, say how they are reached, and leave the lists of other
        -- leaders as they were when one is told of them. After the controller has handled them in
        -- turn, on the list of every ready leader there is a worker of a name that was handled just
        -- when the last one of the name was ready, and no other name has changed.
        pub process_objects-registered :
            (ps : List (APod D)) (q : Q.State) (net : NetState D)
            → All IsFollower ps
            → All
                (Changed D lists (registered ps) net (process_objects ps (q, net)).1)
                (leaders D lists rc store serving)
        unfolding process_objects
        process_objects-registered [] q net _ = Changed-refl net (leaders D lists rc store serving)
        process_objects-registered (p ∷ ps) q net (f, fs) =
            Changed-trans ps p net _ _ (leaders D lists rc store serving)
              (process_object-Changed p q net f) (process_objects-registered ps _ _ fs)
