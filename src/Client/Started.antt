-- ===== src/Client/Started.antt =====
-- Which informers run and are waited for (Start and WaitForCacheSync of
-- pkg/client/informers/externalversions/factory.go), over any sequence of requests.
use datafuse_operator.Prelude.{
  String, Bool, true, false, ◌||◌, ◌&&◌, List, [], ◌∷◌, eq_iff, ◌≡◌, refl, ◌∙◌, ap, arith,
  Bool-cases, inl, inr, some, none, Option, not, contains,
}
use datafuse_operator.Go.Int.{ℤ}
use datafuse_operator.Go.Map.{Entries, lookup, has, has-insert}
use datafuse_operator.Client.Informers.{
  SharedInformer, Factory, is_started, start_all, start, informer_for, wait_all,
  wait_for_cache_sync, pick_started, new_filtered_shared_informer_factory, informers-new,
  started-new,
}
use datafuse_operator.Client.Factory.{
  Call, request, start_informers, make_call, make_calls, asked, has-make_calls,
  is_started-start_all, start_all-informers, has-informer_for, started-informer_for,
  start_all-IsRun, make_calls-IsRun, fresh-IsRun,
}

module _ (Tweak : Type 0)
    (range : Entries (SharedInformer Tweak) → Entries (SharedInformer Tweak)) where
  is_started-informer_for :
      (f : Factory Tweak) (type : String) (new_func : ℤ → SharedInformer Tweak) (k : String)
      → is_started Tweak (informer_for Tweak f type new_func).1 k ≡ is_started Tweak f k
  unfolding is_started
  is_started-informer_for f type new_func k =
      ap (λ started. elim (lookup k started) [ some b ↦ b | none ↦ false ])
        (started-informer_for Tweak range f type new_func)

  has-pick_started :
      (f : Factory Tweak) (entries informers : Entries (SharedInformer Tweak)) (k : String)
      → has (pick_started Tweak f entries informers) k
        ≡ (has informers k || (is_started Tweak f k && has entries k))
  unfolding pick_started lookup
  has-pick_started f [] informers k = ground arith
  has-pick_started f ((type, informer) ∷ rest) informers k =
      elim (Bool-cases (is_started Tweak f type)) [
        | inl h ↦
            rw (h, pick_started)
              (has-pick_started f rest _ k
                ∙ ground (arith, has-insert type k informer informers, eq_iff type k, h))
        | inr h ↦
            rw (h, pick_started) (has-pick_started f rest _ k ∙ ground (arith, eq_iff type k, h))
      ]

  has-wait_all :
      (synced : SharedInformer Tweak → Bool) (entries : Entries (SharedInformer Tweak))
      (res : Entries Bool) (k : String)
      → has (wait_all Tweak synced entries res) k ≡ (has res k || has entries k)
  unfolding wait_all lookup
  has-wait_all synced [] res k = ground arith
  has-wait_all synced ((type, informer) ∷ rest) res k =
      has-wait_all synced rest _ k
      ∙ ground (arith, has-insert type k (synced informer) res, eq_iff type k)

  module _
      (same_keys : (m : Entries (SharedInformer Tweak)) (k : String)
        → has (range m) k ≡ has m k) where
    -- A started informer was requested.
    started-make_calls :
        (calls : List (Call Tweak range)) (s : Factory Tweak × List String) (k : String)
        → (not (is_started Tweak s.0 k) || has s.0.informers k) ≡ true
        → (not (is_started Tweak (make_calls Tweak range calls s).0 k)
            || has (make_calls Tweak range calls s).0.informers k)
          ≡ true
    unfolding make_calls make_call start
    started-make_calls [] s k h = h
    started-make_calls (start_informers ∷ calls) s k h = started-make_calls calls _ k (
        ground (
          arith,
          start_all-informers Tweak range (range s.0.informers) s,
          is_started-start_all Tweak range (range s.0.informers) s k,
          same_keys s.0.informers k,
        ))
    started-make_calls (request type new_func ∷ calls) (f, running) k h =
        started-make_calls calls _ k (
          ground (
            arith,
            has-informer_for Tweak range f type new_func k,
            is_started-informer_for f type new_func k,
          ))

    has-fresh :
        (resync : ℤ) (namespace : String) (tweak : Option Tweak) (k : String)
        → has (new_filtered_shared_informer_factory Tweak resync namespace tweak).informers k
          ≡ false
    unfolding lookup
    has-fresh resync namespace tweak k = rw (informers-new Tweak resync namespace tweak) refl

    is_started-fresh :
        (resync : ℤ) (namespace : String) (tweak : Option Tweak) (k : String)
        → is_started Tweak (new_filtered_shared_informer_factory Tweak resync namespace tweak) k
          ≡ false
    unfolding lookup is_started
    is_started-fresh resync namespace tweak k = rw (started-new Tweak resync namespace tweak) refl

    -- When a range over a map visits its keys: take any calls of InformerFor and of Start on a factory
    -- that NewFilteredSharedInformerFactory makes, and then Start. The informers that run are those of
    -- the types that were asked for.
    pub start-asked :
        (resync : ℤ) (namespace : String) (tweak : Option Tweak) (calls : List (Call Tweak range))
        (k : String)
        → contains
            (start Tweak range (
              make_calls Tweak range calls
                (new_filtered_shared_informer_factory Tweak resync namespace tweak, []))).1
            k
          ≡ asked Tweak range calls k
    unfolding start
    start-asked resync namespace tweak calls k =
        let new = new_filtered_shared_informer_factory Tweak resync namespace tweak in
        let before = make_calls Tweak range calls (new, []) in
        let kept =
          make_calls-IsRun Tweak range calls (new, [])
            (fresh-IsRun Tweak range new (started-new Tweak resync namespace tweak)) in
        (start_all-IsRun Tweak range (range before.0.informers) before kept).marked k
        ∙ is_started-start_all Tweak range (range before.0.informers) before k
        ∙ ground (
          arith,
          same_keys before.0.informers k,
          started-make_calls calls (new, []) k
              (ground (arith, is_started-fresh resync namespace tweak k)),
          has-make_calls Tweak range calls (new, []) k,
          has-fresh resync namespace tweak k,
        )

    -- When a range over a map visits its keys: take any calls of InformerFor and of Start on a factory
    -- that NewFilteredSharedInformerFactory makes, and then Start. WaitForCacheSync then answers for the
    -- types that were asked for, whatever it answers.
    pub wait_for_cache_sync-asked :
        (resync : ℤ) (namespace : String) (tweak : Option Tweak) (calls : List (Call Tweak range))
        (synced : SharedInformer Tweak → Bool) (k : String)
        → has
            (wait_for_cache_sync Tweak range synced
              (start Tweak range (
                make_calls Tweak range calls
                  (new_filtered_shared_informer_factory Tweak resync namespace tweak, []))).0)
            k
          ≡ asked Tweak range calls k
    unfolding start wait_for_cache_sync lookup
    wait_for_cache_sync-asked resync namespace tweak calls synced k =
        let new = new_filtered_shared_informer_factory Tweak resync namespace tweak in
        let before = make_calls Tweak range calls (new, []) in
        let after = start_all Tweak (range before.0.informers) before in
        has-wait_all synced (range (pick_started Tweak after.0 (range after.0.informers) [])) [] k
        ∙ ground (
          arith,
          same_keys (pick_started Tweak after.0 (range after.0.informers) []) k,
          has-pick_started after.0 (range after.0.informers) [] k,
          same_keys after.0.informers k,
          start_all-informers Tweak range (range before.0.informers) before,
          is_started-start_all Tweak range (range before.0.informers) before k,
          same_keys before.0.informers k,
          started-make_calls calls (new, []) k
              (ground (arith, is_started-fresh resync namespace tweak k)),
          has-make_calls Tweak range calls (new, []) k,
          has-fresh resync namespace tweak k,
        )
