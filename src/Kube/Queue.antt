-- ===== src/Kube/Queue.antt =====
-- workqueue.RateLimitingInterface of client-go, and how the three controllers treat a processed item.
use datafuse_operator.Prelude.{ℕ, suc, ◌≡◌, Option, none, some, ltb, if◌then◌else◌}
use datafuse_operator.Go.Result.{GoError}

pub record WorkQueue (Item : Type 0) : Type 1 where
  pub State : Type 0
  -- Get blocks until there is an item; `none` is a queue that is shut down
  pub next : State → Option Item × State
  pub done : Item → State → State
  pub forget : Item → State → State
  pub add : Item → State → State
  pub add_rate_limited : Item → State → State
  pub num_requeues : Item → State → ℕ

-- What the documentation of workqueue says: AddRateLimited counts a requeue of its item, Forget sets
-- the count back, and Get and Done touch no count.
pub record IsCounting {Item : Type 0} (Q : WorkQueue Item) : Type 0 where
  pub counts_add :
      (i : Item) (s : Q.State)
      → Q.num_requeues i (Q.add_rate_limited i s) ≡ suc (Q.num_requeues i s)
  pub counts_forget : (i : Item) (s : Q.State) → Q.num_requeues i (Q.forget i s) ≡ 0
  pub counts_next : (i : Item) (s : Q.State) → Q.num_requeues i (Q.next s).1 ≡ Q.num_requeues i s
  pub counts_done : (i j : Item) (s : Q.State) → Q.num_requeues i (Q.done j s) ≡ Q.num_requeues i s

-- What the documentation of workqueue says of an empty queue: an item that AddRateLimited puts there is
-- the next that Get gives out, after the wait of its rate limiter.
pub record IsGiving {Item : Type 0} (Q : WorkQueue Item) : Type 1 where
  pub IsEmpty : Q.State → Type 0
  pub gives : (i : Item) (s : Q.State) → IsEmpty s → (Q.next (Q.add_rate_limited i s)).0 ≡ some i

module _ {Item : Type 0} (Q : WorkQueue Item) where
  open Q use {State, forget, add_rate_limited, num_requeues}

  -- The `errorHandler` of the controllers: without an error the item is forgotten; with one it is put
  -- back, unless it was put back 50 times already.
  unfoldable pub error_handler : Item → Option GoError → State → State
  error_handler obj none s = forget obj s
  error_handler obj (some e) s =
      if ltb (num_requeues obj s) 50 then add_rate_limited obj s else forget obj s
