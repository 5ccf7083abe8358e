-- ===== src/Kube/Worker.antt =====
-- `for c.processNext() {}`, the loop of a worker, and a queue that is shut down.
use datafuse_operator.Prelude.{
  ℕ, zero, suc, ◌≤◌, ◌<◌, Bool, true, false, Option, none, some, ◌≡◌, refl, arith, ltb,
  if◌then◌else◌, Bool-cases, inl, inr,
}
use datafuse_operator.Go.Result.{Result, GoError, ok, err, panic}
use datafuse_operator.Kube.Queue.{WorkQueue, error_handler}

-- The loop, for at most n rounds: `none` when they were not enough, else how it ended. A round that
-- answers `true` is followed by the next one.
unfoldable pub run_worker :
    {S : Type 0} → (S → Result Bool × S) → ℕ → S → Option (Result (Unit {0}) × S)
run_worker step zero s = none
run_worker step (suc n) s =
    let (answer, s') = step s in
    let rest = run_worker step n s' in
    elim answer [
      | ok again ↦ if again then rest else some (ok tt, s')
      | err e ↦ some (err e, s')
      | panic ↦ some (panic, s')
    ]

-- What the documentation of workqueue says of ShutDown: new items are ignored, and the items that
-- are there are still given out. What is pending are the items that wait to be given out, those
-- among them that are to come back when they are done.
pub record IsDraining {Item : Type 0} (Q : WorkQueue Item) : Type 1 where
  pub IsShutDown : Q.State → Type 0
  pub pending : Q.State → ℕ
  pub takes :
      (s : Q.State) (o : Item)
      → IsShutDown s
      → (Q.next s).0 ≡ some o
      → IsShutDown (Q.next s).1 × pending (Q.next s).1 < pending s
  pub dones :
      (s : Q.State) (o : Item)
      → IsShutDown s
      → IsShutDown (Q.done o s) × pending (Q.done o s) ≤ pending s
  pub forgets :
      (s : Q.State) (o : Item)
      → IsShutDown s
      → IsShutDown (Q.forget o s) × pending (Q.forget o s) ≤ pending s
  pub ignores :
      (s : Q.State) (o : Item)
      → IsShutDown s
      → IsShutDown (Q.add_rate_limited o s) × pending (Q.add_rate_limited o s) ≤ pending s

-- Rounds that take something away from what is pending come to an end.
module _ {S : Type 0} (step : S → Result Bool × S) (P : S → Type 0) (pending : S → ℕ)
    (falls : (s : S)
      → P s
      → (step s).0 ≡ ok true
      → P (step s).1 × pending (step s).1 < pending s) where
  abbrev Ends : ℕ → S → Type 0
  Ends n s = (out : Result (Unit {0}) × S) × (run_worker step n s ≡ some out)

  Ends-after :
      (n : ℕ) (s : S) (answer : Result Bool)
      → (step s).0 ≡ answer
      → ((step s).0 ≡ ok true → Ends n (step s).1)
      → Ends (suc n) s
  unfolding run_worker
  Ends-after n s (ok true) e rest = let (out, h) = rest e in (out, rw (e, run_worker) h)
  Ends-after n s (ok false) e rest = ((ok tt, (step s).1), rw (e, run_worker) refl)
  Ends-after n s (err x) e rest = ((err x, (step s).1), rw (e, run_worker) refl)
  Ends-after n s panic e rest = ((panic, (step s).1), rw (e, run_worker) refl)

  pub run_worker-ends :
      (n : ℕ) (s : S)
      → P s
      → pending s < n
      → (out : Result (Unit {0}) × S) × (run_worker step n s ≡ some out)
  run_worker-ends zero s p less = absurd (omega arith)
  run_worker-ends (suc n) s p less = Ends-after n s (step s).0 refl (λ again.
      let (kept, fewer) = falls s p again in run_worker-ends n (step s).1 kept (omega arith))

module _ {Item : Type 0} (Q : WorkQueue Item) (D : IsDraining Q) where
  -- A state that is shut down and where no more is pending than before.
  abbrev pub IsDrained : Q.State → Q.State → Type 0
  IsDrained s s' = D.IsShutDown s' × D.pending s' ≤ D.pending s

  pub error_handler-IsDrained :
      (o : Item) (e : Option GoError) (s : Q.State)
      → D.IsShutDown s
      → IsDrained s (error_handler Q o e s)
  unfolding error_handler
  error_handler-IsDrained o none s shut = D.forgets s o shut
  error_handler-IsDrained o (some e) s shut = elim (Bool-cases (ltb (Q.num_requeues o s) 50)) [
    | inl h ↦ rw (h) (D.ignores s o shut)
    | inr h ↦ rw (h) (D.forgets s o shut)
  ]
