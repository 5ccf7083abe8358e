-- ===== src/Client/Sharing.antt =====
-- What the requests of a sharedInformerFactory share (pkg/client/informers/externalversions/factory.go
-- and generic.go).
use datafuse_operator.Prelude.{
  String, List, [], ◌∷◌, eq_iff, eq_refl, ◌≡◌, refl, arith, Option-cases, inl, inr, some,
}
use datafuse_operator.Go.Int.{ℤ}
use datafuse_operator.Go.Map.{Entries, lookup, lookup-insert}
use datafuse_operator.Client.Informers.{SharedInformer, Factory, start, informer_for, resync_of}
use datafuse_operator.Client.Factory.{
  Call, request, start_informers, make_call, make_calls, start_all-informers,
}

module _ (Tweak : Type 0)
    (range : Entries (SharedInformer Tweak) → Entries (SharedInformer Tweak)) where
  lookup-informer_for :
      (f : Factory Tweak) (type : String) (new_func : ℤ → SharedInformer Tweak) (k : String)
      (i : SharedInformer Tweak)
      → lookup k f.informers ≡ some i
      → lookup k (informer_for Tweak f type new_func).1.informers ≡ some i
  unfolding informer_for
  lookup-informer_for f type new_func k i h = elim (Option-cases (lookup type f.informers)) [
    | inl absent ↦
        rw (absent, informer_for)
          (ground (
            arith,
            lookup-insert type k (new_func (resync_of Tweak f type)) f.informers,
            eq_iff type k,
            absent,
            h,
          ))
    | inr (_, found) ↦ rw (found, informer_for) h
  ]

  -- A requested informer is in the factory.
  lookup-requested :
      (f : Factory Tweak) (type : String) (new_func : ℤ → SharedInformer Tweak)
      → lookup type (informer_for Tweak f type new_func).1.informers
        ≡ some (informer_for Tweak f type new_func).0
  unfolding informer_for
  lookup-requested f type new_func = elim (Option-cases (lookup type f.informers)) [
    | inl absent ↦
        rw (absent, informer_for)
          (ground (
            arith,
            lookup-insert type type (new_func (resync_of Tweak f type)) f.informers,
            eq_refl type,
          ))
    | inr (_, found) ↦ rw (found, informer_for) found
  ]

  -- An informer that the factory has, it keeps.
  lookup-make_calls :
      (calls : List (Call Tweak range)) (s : Factory Tweak × List String) (k : String)
      (i : SharedInformer Tweak)
      → lookup k s.0.informers ≡ some i
      → lookup k (make_calls Tweak range calls s).0.informers ≡ some i
  unfolding make_calls make_call start
  lookup-make_calls [] s k i h = h
  lookup-make_calls (start_informers ∷ calls) s k i h =
      lookup-make_calls calls _ k i (rw (start_all-informers Tweak range (range s.0.informers) s) h)
  lookup-make_calls (request type new_func ∷ calls) (f, running) k i h =
      lookup-make_calls calls _ k i (lookup-informer_for f type new_func k i h)

  -- InformerFor, once it has made an informer of a type, returns that informer to every later request
  -- for the type, whatever calls come between and whatever function the request brings.
  pub informer_for-shared :
      (f : Factory Tweak) (running : List String) (type : String)
      (new_func other_func : ℤ → SharedInformer Tweak) (calls : List (Call Tweak range))
      → (informer_for Tweak
          (make_calls Tweak range calls ((informer_for Tweak f type new_func).1, running)).0
          type
          other_func).0
        ≡ (informer_for Tweak f type new_func).0
  unfolding informer_for
  informer_for-shared f running type new_func other_func calls =
      rw
        (
          lookup-make_calls calls ((informer_for Tweak f type new_func).1, running) type _
              (lookup-requested f type new_func),
          informer_for,
        )
        refl
