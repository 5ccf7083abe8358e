-- ===== src/Client/Scope.antt =====
-- The namespace and the list options of a sharedInformerFactory
-- (pkg/client/informers/externalversions/factory.go), down to the requests of its informers.
use datafuse_operator.Prelude.{
  String, true, false, Option, none, some, List, [], ◌∷◌, ◌≡◌, refl, ◌∙◌, ap, arith, Bool-cases,
  Option-cases, inl, inr,
}
use datafuse_operator.Go.Int.{ℤ}
use datafuse_operator.Go.Map.{Entries, lookup, has}
use datafuse_operator.Api.Types.{ComputeGroup}
use datafuse_operator.Client.Requests.{
  ListOptions, timeout_of, get_verb, list_params, no_body, Request, RestClient, list, watch,
  new_compute_groups,
}
use datafuse_operator.Client.Informers.{
  SharedInformer, Factory, compute_group_type, compute_group_informer, informer_for, is_started,
  start, start_all, new_filtered_shared_informer_factory, informers-new, resync_of,
  new_compute_group_informer,
}
use datafuse_operator.Client.Factory.{
  Call, request, start_informers, make_call, make_calls, asked, has-make_calls,
}
use datafuse_operator.Client.Watching.{Tweak, tweaked, list_groups_of, watch_groups_of}

module _ (Tweak' : Type 0)
    (range : Entries (SharedInformer Tweak') → Entries (SharedInformer Tweak')) where
  -- The namespace and the options of an informer.
  abbrev pub made_for : SharedInformer Tweak' → String × Option Tweak'
  made_for i = (i.namespace, i.tweak)

  -- The namespace and the options of a factory, which no call changes.
  abbrev scope : Factory Tweak' → String × Option Tweak'
  scope f = (f.namespace, f.tweak_list_options)

  start_all-scope :
      (entries : Entries (SharedInformer Tweak')) (s : Factory Tweak' × List String)
      → scope (start_all Tweak' entries s).0 ≡ scope s.0
  unfolding start_all
  start_all-scope [] s = refl
  start_all-scope ((type, _) ∷ rest) (f, running) = elim (Bool-cases (is_started Tweak' f type)) [
    | inl h ↦ rw (h, start_all) (start_all-scope rest _)
    | inr h ↦ rw (h, start_all) (start_all-scope rest _)
  ]

  informer_for-scope :
      (f : Factory Tweak') (type : String) (new_func : ℤ → SharedInformer Tweak')
      → scope (informer_for Tweak' f type new_func).1 ≡ scope f
  unfolding informer_for
  informer_for-scope f type new_func = elim (Option-cases (lookup type f.informers)) [
    | inl absent ↦ rw (absent, informer_for) refl
    | inr (_, found) ↦ rw (found, informer_for) refl
  ]

  make_calls-scope :
      (calls : List (Call Tweak' range)) (s : Factory Tweak' × List String)
      → scope (make_calls Tweak' range calls s).0 ≡ scope s.0
  unfolding make_calls make_call start
  make_calls-scope [] s = refl
  make_calls-scope (start_informers ∷ calls) s =
      make_calls-scope calls _ ∙ start_all-scope (range s.0.informers) s
  make_calls-scope (request type new_func ∷ calls) (f, running) =
      make_calls-scope calls _ ∙ informer_for-scope f type new_func

  informer_for-new :
      (f : Factory Tweak') (type : String) (new_func : ℤ → SharedInformer Tweak')
      → has f.informers type ≡ false
      → (informer_for Tweak' f type new_func).0 ≡ new_func (resync_of Tweak' f type)
  unfolding informer_for
  informer_for-new f type new_func fresh = elim (Option-cases (lookup type f.informers)) [
    | inl absent ↦ rw (absent, informer_for) refl
    | inr (_, found) ↦ absurd (ground (arith, found, fresh))
  ]

  -- An informer of compute groups that is made anew has the scope of its factory.
  compute_group_informer-scope :
      (f : Factory Tweak')
      → has f.informers compute_group_type ≡ false
      → made_for (compute_group_informer Tweak' f).0 ≡ scope f
  unfolding compute_group_informer new_compute_group_informer
  compute_group_informer-scope f fresh = ap made_for (
      informer_for-new f compute_group_type
        (λ resync. new_compute_group_informer Tweak' f.namespace resync f.tweak_list_options) fresh)

  scope-new :
      (resync : ℤ) (namespace : String) (tweak : Option Tweak')
      → scope (new_filtered_shared_informer_factory Tweak' resync namespace tweak)
        ≡ (namespace, tweak)
  unfolding new_filtered_shared_informer_factory
  scope-new resync namespace tweak = refl

  -- The factory with the calls behind it.
  abbrev pub called : ℤ → String → Option Tweak' → List (Call Tweak' range) → Factory Tweak'
  called resync namespace tweak calls =
      (make_calls Tweak' range calls
        (new_filtered_shared_informer_factory Tweak' resync namespace tweak, [])).0

  has-called :
      (resync : ℤ) (namespace : String) (tweak : Option Tweak') (calls : List (Call Tweak' range))
      → asked Tweak' range calls compute_group_type ≡ false
      → has (called resync namespace tweak calls).informers compute_group_type ≡ false
  unfolding lookup
  has-called resync namespace tweak calls unasked =
      has-make_calls Tweak' range calls _ compute_group_type
      ∙ rw (informers-new Tweak' resync namespace tweak) unasked

  pub called-scope :
      (resync : ℤ) (namespace : String) (tweak : Option Tweak') (calls : List (Call Tweak' range))
      → asked Tweak' range calls compute_group_type ≡ false
      → made_for (compute_group_informer Tweak' (called resync namespace tweak calls)).0
        ≡ (namespace, tweak)
  called-scope resync namespace tweak calls unasked =
      let fresh : scope (called resync namespace tweak calls) ≡ (namespace, tweak) =
        make_calls-scope calls _ ∙ scope-new resync namespace tweak in
      compute_group_informer-scope (called resync namespace tweak calls)
        (has-called resync namespace tweak calls unasked)
      ∙ fresh

module _ {Options Rest : Type 0} (R : RestClient ComputeGroup Options Rest)
    (range : Entries (SharedInformer (Tweak Rest)) → Entries (SharedInformer (Tweak Rest))) where
  -- What a list or a watch of compute groups asks for.
  abbrev pub asking :
      String → ListOptions Rest → ListOptions Rest → Request ComputeGroup Options Rest
  asking namespace given sent = record {
    verb = get_verb;
    namespace = namespace;
    resource = "datafusecomputegroups";
    name = none;
    sub_resources = [];
    params = list_params sent;
    timeout = some (timeout_of given);
    body = no_body;
  }

  -- Take a factory that NewFilteredSharedInformerFactory makes for a namespace and a change of the list
  -- options, and any calls of InformerFor and of Start that do not ask for compute groups. The informer
  -- of compute groups that the factory makes then lists and watches the compute groups of the namespace,
  -- with the changed options, and with a watch that is marked as one.
  pub list_groups_of-called :
      (resync : ℤ) (namespace : String) (tweak : Option (Tweak Rest))
      (calls : List (Call (Tweak Rest) range))
      → asked (Tweak Rest) range calls compute_group_type ≡ false
      → (options : ListOptions Rest) (s : R.State)
      → (list_groups_of R
            (compute_group_informer
              (Tweak Rest)
              (called (Tweak Rest) range resync namespace tweak calls)).0
            options
            s
          ≡ R.do_list (asking namespace (tweaked tweak options) (tweaked tweak options)) s)
        × (watch_groups_of R
              (compute_group_informer
                (Tweak Rest)
                (called (Tweak Rest) range resync namespace tweak calls)).0
              options
              s
            ≡ R.do_watch
                (asking namespace
                  (tweaked tweak options)
                  (record (tweaked tweak options) { watch = true }))
                s)
  unfolding list_groups_of watch_groups_of list watch new_compute_groups
  list_groups_of-called resync namespace tweak calls unasked options s =
      let e = called-scope (Tweak Rest) range resync namespace tweak calls unasked in
      (
        ap
            (λ (p : String × Option (Tweak Rest)).
              R.do_list (asking p.0 (tweaked p.1 options) (tweaked p.1 options)) s)
            e,
        ap
            (λ (p : String × Option (Tweak Rest)).
              R.do_watch
                (asking p.0 (tweaked p.1 options) (record (tweaked p.1 options) { watch = true }))
                s)
            e,
      )
