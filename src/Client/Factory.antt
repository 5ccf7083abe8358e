-- ===== src/Client/Factory.antt =====
-- Which informers sharedInformerFactory runs (pkg/client/informers/externalversions/factory.go), over
-- any sequence of its calls.
use datafuse_operator.Prelude.{
  String, Bool, true, false, ◌||◌, List, [], ◌∷◌, ◌++◌, contains, ◌==◌, eq_iff, ◌≡◌, refl, ◌∙◌,
  arith, Bool-cases, Option-cases, inl, inr, Option,
}
use datafuse_operator.Go.Int.{ℤ}
use datafuse_operator.Go.Map.{Entries, lookup, has, lookup-insert, has-insert}
use datafuse_operator.Client.Informers.{
  SharedInformer, Factory, is_started, mark, resync_of, start_all, start, informer_for,
  new_filtered_shared_informer_factory, started-new,
}

-- No text stands in a list twice.
abbrev pub Distinct : List String → Type 0
Distinct [] = Unit
Distinct (x ∷ xs) = (contains xs x ≡ false) × Distinct xs

contains-snoc :
    (xs : List String) (y k : String) → contains (xs ++ y ∷ []) k ≡ (contains xs k || (y == k))
contains-snoc [] y k = ground arith
contains-snoc (x ∷ xs) y k = ground (arith, contains-snoc xs y k)

Distinct-snoc :
    (xs : List String) (y : String) → Distinct xs → contains xs y ≡ false → Distinct (xs ++ y ∷ [])
Distinct-snoc [] y _ _ = (refl, tt)
Distinct-snoc (x ∷ xs) y (new, distinct) h = (
  ground (arith, h, new, contains-snoc xs y x, eq_iff y x, eq_iff x y),
  Distinct-snoc xs y distinct (ground (arith, h)),
)

module _ (Tweak : Type 0)
    (range : Entries (SharedInformer Tweak) → Entries (SharedInformer Tweak)) where
  abbrev State : Type 0
  State = Factory Tweak × List String

  -- A call of the factory.
  pub data Call : Type 0 where
    request : String → (ℤ → SharedInformer Tweak) → Call
    start_informers : Call

  unfoldable pub make_call : Call → State → State
  make_call (request type new_func) (f, running) = ((informer_for Tweak f type new_func).1, running)
  make_call start_informers s = start Tweak range s

  unfoldable pub make_calls : List Call → State → State
  make_calls [] s = s
  make_calls (call ∷ calls) s = make_calls calls (make_call call s)

  -- Whether an informer was requested.
  pub has-informer_for :
      (f : Factory Tweak) (type : String) (new_func : ℤ → SharedInformer Tweak) (k : String)
      → has (informer_for Tweak f type new_func).1.informers k ≡ (has f.informers k || (type == k))
  unfolding informer_for
  has-informer_for f type new_func k = elim (Option-cases (lookup type f.informers)) [
    | inl absent ↦
        rw (absent, informer_for)
          (ground (arith, has-insert type k (new_func (resync_of Tweak f type)) f.informers))
    | inr (informer, found) ↦ rw (found, informer_for) (ground (arith, eq_iff type k, found))
  ]

  pub started-informer_for :
      (f : Factory Tweak) (type : String) (new_func : ℤ → SharedInformer Tweak)
      → (informer_for Tweak f type new_func).1.started_informers ≡ f.started_informers
  unfolding informer_for
  started-informer_for f type new_func = elim (Option-cases (lookup type f.informers)) [
    | inl absent ↦ rw (absent, informer_for) refl
    | inr (_, found) ↦ rw (found, informer_for) refl
  ]

  is_started-mark :
      (f : Factory Tweak) (type k : String)
      → is_started Tweak (mark Tweak f type) k ≡ ((type == k) || is_started Tweak f k)
  unfolding is_started
  is_started-mark f type k = ground (arith, lookup-insert type k true f.started_informers)

  -- The loop of Start leaves the informers, marks each that it visits, and runs each that was not marked.
  pub start_all-informers :
      (entries : Entries (SharedInformer Tweak)) (s : State)
      → (start_all Tweak entries s).0.informers ≡ s.0.informers
  unfolding start_all
  start_all-informers [] s = refl
  start_all-informers ((type, _) ∷ rest) (f, running) =
      elim (Bool-cases (is_started Tweak f type)) [
        | inl h ↦ rw (h, start_all) (start_all-informers rest _)
        | inr h ↦ rw (h, start_all) (start_all-informers rest _)
      ]

  pub is_started-start_all :
      (entries : Entries (SharedInformer Tweak)) (s : State) (k : String)
      → is_started Tweak (start_all Tweak entries s).0 k ≡ (is_started Tweak s.0 k || has entries k)
  unfolding start_all lookup
  is_started-start_all [] s k = ground arith
  is_started-start_all ((type, _) ∷ rest) (f, running) k =
      elim (Bool-cases (is_started Tweak f type)) [
        | inl h ↦
            rw (h, start_all) (is_started-start_all rest _ k ∙ ground (arith, eq_iff type k, h))
        | inr h ↦
            rw (h, start_all)
              (is_started-start_all rest _ k
                ∙ ground (arith, is_started-mark f type k, eq_iff type k, h))
      ]

  -- What Start keeps: each informer that runs is marked and stands once among those that run.
  pub record IsRun (s : State) : Type 0 where
    pub once : Distinct s.1
    pub marked : (k : String) → contains s.1 k ≡ is_started Tweak s.0 k

  pub start_all-IsRun :
      (entries : Entries (SharedInformer Tweak)) (s : State)
      → IsRun s
      → IsRun (start_all Tweak entries s)
  unfolding start_all
  start_all-IsRun [] s c = c
  start_all-IsRun ((type, _) ∷ rest) (f, running) c = elim (Bool-cases (is_started Tweak f type)) [
    | inl h ↦ rw (h, start_all) (start_all-IsRun rest _ c)
    | inr h ↦
        rw (h, start_all)
          (start_all-IsRun rest _ (record {
            once = Distinct-snoc running type c.once (c.marked type ∙ h);
            marked = λ k.
                ground (arith, contains-snoc running type k, c.marked k, is_started-mark f type k);
          }))
  ]

  -- Whether a call of the list asks for an informer of a type.
  unfoldable pub asked : List Call → String → Bool
  asked [] k = false
  asked (request type _ ∷ calls) k = (type == k) || asked calls k
  asked (start_informers ∷ calls) k = asked calls k

  pub make_calls-IsRun : (calls : List Call) (s : State) → IsRun s → IsRun (make_calls calls s)
  unfolding make_call make_calls start is_started
  make_calls-IsRun [] s c = c
  make_calls-IsRun (start_informers ∷ calls) s c =
      make_calls-IsRun calls _ (start_all-IsRun (range s.0.informers) s c)
  make_calls-IsRun (request type new_func ∷ calls) (f, running) c =
      make_calls-IsRun calls _ (record {
        once = c.once;
        marked = λ k. rw (is_started, started-informer_for f type new_func) (c.marked k);
      })

  pub has-make_calls :
      (calls : List Call) (s : State) (k : String)
      → has (make_calls calls s).0.informers k ≡ (has s.0.informers k || asked calls k)
  unfolding make_call make_calls start asked
  has-make_calls [] s k = ground arith
  has-make_calls (start_informers ∷ calls) s k =
      has-make_calls calls _ k ∙ rw (start_all-informers (range s.0.informers) s) refl
  has-make_calls (request type new_func ∷ calls) (f, running) k =
      has-make_calls calls _ k ∙ ground (arith, has-informer_for f type new_func k)

  pub fresh-IsRun : (f : Factory Tweak) → f.started_informers ≡ [] → IsRun (f, [])
  unfolding is_started lookup
  fresh-IsRun f e = record { once = tt; marked = λ k. rw (e, lookup) refl }

  -- Take any calls of InformerFor and of Start on a factory that NewFilteredSharedInformerFactory
  -- makes. No informer is run twice.
  pub make_calls-Distinct :
      (resync : ℤ) (namespace : String) (tweak : Option Tweak) (calls : List Call)
      → Distinct
          (make_calls calls
            (new_filtered_shared_informer_factory Tweak resync namespace tweak, [])).1
  make_calls-Distinct resync namespace tweak calls =
      (make_calls-IsRun calls _ (fresh-IsRun _ (started-new Tweak resync namespace tweak))).once
