-- ===== src/Register/Retry.antt =====
-- How often the register controller tries a pod again.
use datafuse_operator.Prelude.{
  ℕ, ◌+◌, zero, suc, ◌≤◌, true, false, some, ◌≡◌, refl, arith, ◌∙◌, ap, ltb, if◌then◌else◌,
}
use datafuse_operator.Go.Result.{GoError, ok, err}
use datafuse_operator.Kube.Queue.{WorkQueue, IsCounting, error_handler}
use datafuse_operator.Register.Nodes.{is_group_leader}
use datafuse_operator.Register.Listing.{RegisterDeps, APod, Object, pod, RegisterController}
use datafuse_operator.Register.Process.{NetState}
use datafuse_operator.Register.Watch.{on_pod_added}
use datafuse_operator.Register.Work.{process_pod, process_object, finish}

module _ (D : RegisterDeps) (Q : WorkQueue (Object D)) where
  -- An object that the queue gives n times in a row.
  unfoldable pub rounds :
      RegisterController D → Object D → ℕ → Q.State × NetState D → Q.State × NetState D
  rounds rc o zero s = s
  rounds rc o (suc n) (q, net) =
      let (_, q', net') = process_object D Q rc o q net in rounds rc o n (q', net')

  module _ (counting : IsCounting Q) (rc : RegisterController D) (p : APod D)
      (unready : D.is_pod_ready p ≡ false) (leads : is_group_leader D.quantities p ≡ true) where
    process_pod_lem :
        (net : NetState D) → (e : GoError) × (process_pod D rc p net ≡ some (err e, net))
    unfolding process_pod
    process_pod_lem net = rw (unready, leads) (_, refl)

    -- One round: an error, and no request is sent.
    round :
        (q : Q.State) (net : NetState D)
        → process_object D Q rc (pod p) q net ≡ (
          ok true,
          (if ltb (Q.num_requeues (pod p) q) 50
              then Q.add_rate_limited (pod p) q
              else Q.forget (pod p) q),
          net,
        )
    unfolding process_object finish error_handler
    round q net = let (e, run) = process_pod_lem net in rw (run, process_object) refl

    rounds_lem :
        (n : ℕ) (q : Q.State) (net : NetState D)
        → rounds rc (pod p) (suc n) (q, net)
          ≡ rounds rc (pod p) n (
            (if ltb (Q.num_requeues (pod p) q) 50
                then Q.add_rate_limited (pod p) q
                else Q.forget (pod p) q),
            net,
          )
    unfolding rounds
    rounds_lem n q net = ap (λ r. rounds rc (pod p) n (r.1, r.2)) (round q net)

    -- In a queue that counts requeues, a leader that is not ready and has c failures behind it has
    -- c + n of them after n more rounds, if that is at most 50, and no round sends a request.
    pub rounds-count :
        (n c : ℕ) (q : Q.State) (net : NetState D)
        → Q.num_requeues (pod p) q ≡ c
        → c + n ≤ 50
        → (Q.num_requeues (pod p) (rounds rc (pod p) n (q, net)).0 ≡ c + n)
          × ((rounds rc (pod p) n (q, net)).1 ≡ net)
    unfolding rounds
    rounds-count zero c q net h bound = (omega arith, refl)
    rounds-count (suc n) c q net h bound =
        let less : ltb (Q.num_requeues (pod p) q) 50 ≡ true = ground arith in
        let again : Q.num_requeues (pod p) (Q.add_rate_limited (pod p) q) ≡ suc c =
          counting.counts_add (pod p) q ∙ ap suc h in
        let (count, still) =
          rounds-count n (suc c) (Q.add_rate_limited (pod p) q) net again (omega arith) in
        rw (rounds_lem n q net) (rw less (omega arith, still))

    -- A handler's AddRateLimited counts as one.
    added :
        (q : Q.State)
        → Q.num_requeues (pod p) q ≡ 0
        → Q.num_requeues (pod p) (on_pod_added D Q (pod p) q) ≡ 1
    unfolding on_pod_added
    added q h = counting.counts_add (pod p) q ∙ ap suc h

    -- The state behind a round.
    abbrev behind : Q.State × NetState D → Q.State × NetState D
    behind s = let r = process_object D Q rc (pod p) s.0 s.1 in (r.1, r.2)

    -- The last round comes behind the others.
    rounds-last :
        (n : ℕ) (s : Q.State × NetState D)
        → rounds rc (pod p) (suc n) s ≡ behind (rounds rc (pod p) n s)
    unfolding rounds
    rounds-last zero s = refl
    rounds-last (suc n) s = rounds-last n (behind s)

    -- In a queue that counts requeues, where a leader's pod has no failures behind it: once a handler of
    -- the informer has put it there, which counts as one, and while the leader stays unready, it is
    -- put back 49 times and then given up, without a count; no round sends a request. So the pod is
    -- tried 50 times in all.
    pub rounds-give_up :
        (q : Q.State) (net : NetState D)
        → Q.num_requeues (pod p) q ≡ 0
        → (Q.num_requeues (pod p) (rounds rc (pod p) 49 (on_pod_added D Q (pod p) q, net)).0 ≡ 50)
          × (process_object D Q rc
                (pod p)
                (rounds rc (pod p) 49 (on_pod_added D Q (pod p) q, net)).0
                net
              ≡ (
                ok true,
                Q.forget (pod p) (rounds rc (pod p) 49 (on_pod_added D Q (pod p) q, net)).0,
                net,
              ))
          × (Q.num_requeues (pod p) (rounds rc (pod p) 50 (on_pod_added D Q (pod p) q, net)).0 ≡ 0)
          × ((rounds rc (pod p) 50 (on_pod_added D Q (pod p) q, net)).1 ≡ net)
    rounds-give_up q net h =
        let q' = on_pod_added D Q (pod p) q in
        let (count, still) = rounds-count 49 1 q' net (added q h) (omega arith) in
        let gives_up : process_object D Q rc (pod p) (rounds rc (pod p) 49 (q', net)).0 net
            ≡ (ok true, Q.forget (pod p) (rounds rc (pod p) 49 (q', net)).0, net) =
          round (rounds rc (pod p) 49 (q', net)).0 net ∙ rw count refl in
        let last : rounds rc (pod p) 50 (q', net)
            ≡ (Q.forget (pod p) (rounds rc (pod p) 49 (q', net)).0, net) =
          rounds-last 49 (q', net)
          ∙ ap (λ n. behind ((rounds rc (pod p) 49 (q', net)).0, n)) still
          ∙ ap (λ r. (r.1, r.2)) gives_up in
        (
          count,
          gives_up,
          ap (λ s. Q.num_requeues (pod p) s.0) last
              ∙ counting.counts_forget (pod p) (rounds rc (pod p) 49 (q', net)).0,
          ap (λ s. s.1) last,
        )
