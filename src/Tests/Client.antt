-- ===== src/Tests/Client.antt =====
-- Requests of a factory of informers, and an indexer of compute groups.
use datafuse_operator.Prelude.{ℕ, String, true, none, List, [], ◌∷◌, ◌≡◌, refl, contains}
use datafuse_operator.Go.Int.{pos}
use datafuse_operator.Go.Map.{has}
use datafuse_operator.Client.Informers.{
  SharedInformer, Factory, compute_group_type, operator_type, new_compute_group_informer,
  new_operator_informer, new_filtered_shared_informer_factory, start, wait_for_cache_sync,
  informer_for,
}
use datafuse_operator.Client.Factory.{
  Call, request, start_informers, make_calls, asked, Distinct, make_calls-Distinct,
}
use datafuse_operator.Client.Sharing.{informer_for-shared}
use datafuse_operator.Client.Started.{start-asked, wait_for_cache_sync-asked}

abbrev range : List (String × SharedInformer ℕ) → List (String × SharedInformer ℕ)
range m = m

-- Compute groups are requested twice, with a Start between, and then operators.
abbrev calls : List (Call ℕ range)
calls =
    request compute_group_type (λ resync. new_compute_group_informer ℕ "default" resync none)
    ∷ start_informers
    ∷ request compute_group_type (λ resync. new_compute_group_informer ℕ "" resync none)
    ∷ request operator_type (λ resync. new_operator_informer ℕ "default" resync none)
    ∷ start_informers
    ∷ []

abbrev factory : Factory ℕ
factory = new_filtered_shared_informer_factory ℕ (pos 30) "default" none

make_calls-Distinct_example : Distinct (make_calls ℕ range calls (factory, [])).1
make_calls-Distinct_example = make_calls-Distinct ℕ range (pos 30) "default" none calls

informer_for-shared_example :
    (informer_for ℕ
      (make_calls ℕ range calls (
        (informer_for ℕ factory compute_group_type
            (λ resync. new_compute_group_informer ℕ "default" resync none)).1,
        [],
      )).0
      compute_group_type
      (λ resync. new_compute_group_informer ℕ "" resync none)).0
    ≡ (informer_for ℕ factory compute_group_type
        (λ resync. new_compute_group_informer ℕ "default" resync none)).0
informer_for-shared_example =
    informer_for-shared ℕ range factory [] compute_group_type
      (λ resync. new_compute_group_informer ℕ "default" resync none)
      (λ resync. new_compute_group_informer ℕ "" resync none) calls

start-asked_example :
    contains (start ℕ range (make_calls ℕ range calls (factory, []))).1 operator_type
    ≡ asked ℕ range calls operator_type
start-asked_example = start-asked ℕ range (λ m k. refl) (pos 30) "default" none calls operator_type

wait_for_cache_sync-asked_example :
    has
      (wait_for_cache_sync ℕ range
        (λ i. true)
        (start ℕ range (make_calls ℕ range calls (factory, []))).0)
      operator_type
    ≡ asked ℕ range calls operator_type
wait_for_cache_sync-asked_example =
    wait_for_cache_sync-asked ℕ range (λ m k. refl) (pos 30) "default" none calls (λ i. true)
      operator_type
