-- ===== src/Client/Informers.antt =====
-- pkg/client/informers/externalversions: the factory that shares informers. An informer is what it was
-- made for: the type of its objects (a reflect.Type, by its name), the namespace that it watches, its
-- resync period and the change of its list options. A channel, a lock and a client carry no choice.
use datafuse_operator.Prelude.{
  String, ◌<>◌, Bool, true, false, Option, none, some, List, [], ◌∷◌, ◌++◌, ◌==◌, ◌&&◌,
  if◌then◌else◌, ◌≡◌, refl,
}
use datafuse_operator.Go.Int.{ℤ}
use datafuse_operator.Go.Map.{Entries, lookup, insert}
use datafuse_operator.Go.Result.{Result, ok, err, errorf}
use datafuse_operator.Constants
use datafuse_operator.Api.Types.{scheme_group_version}

abbrev pub compute_group_type : String
compute_group_type = "*v1alpha1.DatafuseComputeGroup"

abbrev pub operator_type : String
operator_type = "*v1alpha1.DatafuseOperator"

-- A resource, as its group version and its name.
pub record GroupVersionResource : Type 0 where
  pub group_version : String
  pub resource : String

module _ (Tweak : Type 0) where
  pub record SharedInformer : Type 0 where
    pub object_type : String
    pub namespace : String
    pub resync : ℤ
    pub tweak : Option Tweak

  -- sharedInformerFactory
  pub record Factory : Type 0 where
    pub namespace : String
    pub tweak_list_options : Option Tweak
    pub default_resync : ℤ
    pub custom_resync : Entries ℤ
    pub informers : Entries SharedInformer
    pub started_informers : Entries Bool

  -- WithCustomResyncConfig, with the types of its objects in the order in which the range visits them
  unfoldable pub with_custom_resync_config : Entries ℤ → Factory → Factory
  with_custom_resync_config [] factory = factory
  with_custom_resync_config ((type, period) ∷ config) factory =
      with_custom_resync_config config
        (record factory { custom_resync = insert type period factory.custom_resync })

  -- WithTweakListOptions
  unfoldable pub with_tweak_list_options : Option Tweak → Factory → Factory
  with_tweak_list_options tweak factory = record factory { tweak_list_options = tweak }

  -- WithNamespace
  unfoldable pub with_namespace : String → Factory → Factory
  with_namespace namespace factory = record factory { namespace = namespace }

  -- The loop over the options.
  unfoldable pub apply_options : List (Factory → Factory) → Factory → Factory
  apply_options [] factory = factory
  apply_options (opt ∷ options) factory = apply_options options (opt factory)

  -- NewSharedInformerFactoryWithOptions
  unfoldable pub new_shared_informer_factory_with_options : ℤ → List (Factory → Factory) → Factory
  unfolding apply_options
  new_shared_informer_factory_with_options default_resync options = apply_options options (record {
    namespace = Constants.namespace_all;
    tweak_list_options = none;
    default_resync = default_resync;
    custom_resync = [];
    informers = [];
    started_informers = [];
  })

  -- NewSharedInformerFactory
  unfoldable pub new_shared_informer_factory : ℤ → Factory
  unfolding new_shared_informer_factory_with_options
  new_shared_informer_factory default_resync =
      new_shared_informer_factory_with_options default_resync []

  -- NewFilteredSharedInformerFactory
  unfoldable pub new_filtered_shared_informer_factory : ℤ → String → Option Tweak → Factory
  unfolding new_shared_informer_factory_with_options with_namespace with_tweak_list_options
  new_filtered_shared_informer_factory default_resync namespace tweak =
      new_shared_informer_factory_with_options default_resync
        (with_namespace namespace ∷ with_tweak_list_options tweak ∷ [])

  -- A new factory has no informer, and none is started.
  pub informers-new :
      (default_resync : ℤ) (namespace : String) (tweak : Option Tweak)
      → (new_filtered_shared_informer_factory default_resync namespace tweak).informers ≡ []
  unfolding new_filtered_shared_informer_factory
  informers-new default_resync namespace tweak = refl

  pub started-new :
      (default_resync : ℤ) (namespace : String) (tweak : Option Tweak)
      → (new_filtered_shared_informer_factory default_resync namespace tweak).started_informers ≡ []
  unfolding new_filtered_shared_informer_factory
  started-new default_resync namespace tweak = refl

  -- `f.startedInformers[informerType]`, which is false for a type that is not there
  unfoldable pub is_started : Factory → String → Bool
  is_started f type = elim (lookup type f.started_informers) [ some b ↦ b | none ↦ false ]

  -- `f.startedInformers[informerType] = true`
  abbrev pub mark : Factory → String → Factory
  mark f type = record f { started_informers = insert type true f.started_informers }

  -- The loop of Start over the informers; the types whose informers are run are listed.
  unfoldable pub start_all : Entries SharedInformer → Factory × List String → Factory × List String
  start_all [] s = s
  start_all ((type, _) ∷ rest) (f, running) =
      start_all rest
        (if is_started f type then (f, running) else (mark f type, running ++ type ∷ []))

  -- WaitForCacheSync: the loop that picks the started informers, and the loop that waits for each,
  -- for what cache.WaitForCacheSync answers.
  unfoldable pub pick_started :
      Factory → Entries SharedInformer → Entries SharedInformer → Entries SharedInformer
  pick_started f [] informers = informers
  pick_started f ((type, informer) ∷ rest) informers =
      pick_started f rest (if is_started f type then insert type informer informers else informers)

  unfoldable pub wait_all :
      (SharedInformer → Bool) → Entries SharedInformer → Entries Bool → Entries Bool
  wait_all synced [] res = res
  wait_all synced ((type, informer) ∷ rest) res =
      wait_all synced rest (insert type (synced informer) res)

  -- The resync period of a type.
  abbrev pub resync_of : Factory → String → ℤ
  resync_of f type = elim (lookup type f.custom_resync) [
    | some period ↦ period
    | none ↦ f.default_resync
  ]

  -- InformerFor, for a type and a function that makes an informer of a resync period
  unfoldable pub informer_for : Factory → String → (ℤ → SharedInformer) → SharedInformer × Factory
  informer_for f type new_func = elim (lookup type f.informers) [
    | some informer ↦ (informer, f)
    | none ↦
        let informer = new_func (resync_of f type) in
        (informer, record f { informers = insert type informer f.informers })
  ]

  -- NewFilteredDatafuseComputeGroupInformer and NewFilteredDatafuseOperatorInformer
  unfoldable pub new_compute_group_informer : String → ℤ → Option Tweak → SharedInformer
  new_compute_group_informer namespace resync tweak = record {
    object_type = compute_group_type;
    namespace = namespace;
    resync = resync;
    tweak = tweak;
  }

  unfoldable pub new_operator_informer : String → ℤ → Option Tweak → SharedInformer
  new_operator_informer namespace resync tweak = record {
    object_type = operator_type;
    namespace = namespace;
    resync = resync;
    tweak = tweak;
  }

  -- f.Datafuse().V1alpha1().DatafuseComputeGroups().Informer()
  unfoldable pub compute_group_informer : Factory → SharedInformer × Factory
  unfolding new_compute_group_informer
  compute_group_informer f =
      informer_for f compute_group_type
        (λ resync. new_compute_group_informer f.namespace resync f.tweak_list_options)

  -- f.Datafuse().V1alpha1().DatafuseOperators().Informer()
  unfoldable pub operator_informer : Factory → SharedInformer × Factory
  unfolding new_operator_informer
  operator_informer f =
      informer_for f operator_type
        (λ resync. new_operator_informer f.namespace resync f.tweak_list_options)

  -- ForResource; `show` is what a format writes for a resource, by its String method of apimachinery.
  unfoldable pub for_resource :
      (GroupVersionResource → String)
      → Factory
      → GroupVersionResource
      → Result (SharedInformer × Factory)
  for_resource show f r =
      if (r.group_version == scheme_group_version) && (r.resource == "datafusecomputegroups")
      then ok (compute_group_informer f)
      else if (r.group_version == scheme_group_version) && (r.resource == "datafuseoperators")
      then ok (operator_informer f)
      else err (errorf ("no informer found for " <> show r))

  module _ (range : Entries SharedInformer → Entries SharedInformer) where
    -- Start
    unfoldable pub start : Factory × List String → Factory × List String
    unfolding start_all
    start (f, running) = start_all (range f.informers) (f, running)

    -- WaitForCacheSync
    unfoldable pub wait_for_cache_sync : (SharedInformer → Bool) → Factory → Entries Bool
    unfolding pick_started wait_all
    wait_for_cache_sync synced f =
        wait_all synced (range (pick_started f (range f.informers) [])) []
