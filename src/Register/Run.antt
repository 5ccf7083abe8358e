-- ===== src/Register/Run.antt =====
-- RegisterController.Run (pkg/controllers/register/register_controller.go): the informers and the workers
-- that it starts, in order.
use datafuse_operator.Prelude.{ℕ, String, Bool, true, List, [], ◌∷◌, if◌then◌else◌, ◌≡◌, refl}
use datafuse_operator.Go.Map.{Entries, insert}
use datafuse_operator.Constants
use datafuse_operator.Register.Listing.{RegisterDeps, PodStore, RegisterController}
use datafuse_operator.Register.Watch.{new_register_controller}

-- What Run does: start the informer of a namespace, fail to fill its cache, start a worker of a period in
-- milliseconds, and wait for the stop signal.
pub data Step : Type 0 where
  run_informer : String → Step
  timed_out : Step
  start_worker : ℕ → Step
  wait_for_stop : Step

-- timeSetter, in milliseconds
unfoldable pub time_setter : Bool → ℕ
time_setter debug = if debug then 10 else 1000

module _ (D : RegisterDeps) (range : Entries (PodStore D) → Entries (PodStore D))
    (has_synced : String → Bool) (debug : Bool) where
  -- The loop over the informers.
  unfoldable pub run_informers : Entries (PodStore D) → List Step
  unfolding time_setter
  run_informers [] = []
  run_informers ((namespace, _) ∷ informers) =
      let rest = run_informers informers in
      if has_synced namespace
      then run_informer namespace ∷ start_worker (time_setter debug) ∷ wait_for_stop ∷ rest
      else run_informer namespace ∷ timed_out ∷ []

  -- Run
  unfoldable pub run : RegisterController D → List Step
  unfolding run_informers
  run rc = run_informers (range rc.pod_informers)

  -- The controller of NewRegisterController for all namespaces starts the informer of all namespaces
  -- and, once the cache is filled, one worker.
  run-new_register_controller :
      (store : PodStore D)
      → range (insert Constants.namespace_all store []) ≡ (Constants.namespace_all, store) ∷ []
      → has_synced Constants.namespace_all ≡ true
      → run (new_register_controller D true store)
        ≡ run_informer Constants.namespace_all
          ∷ start_worker (time_setter debug)
          ∷ wait_for_stop
          ∷ []
  unfolding run new_register_controller
  run-new_register_controller store one filled = rw (one, run_informers) (rw filled refl)
