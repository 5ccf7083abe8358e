-- ===== src/Client/Watching.antt =====
-- What the informers of compute groups ask of the API server: ListFunc and WatchFunc of
-- NewFilteredDatafuseComputeGroupInformer and NewFilteredDatafuseOperatorInformer
-- (pkg/client/informers/externalversions/datafuse/v1alpha1), over the typed clients.
use datafuse_operator.Prelude.{Option, none, some}
use datafuse_operator.Go.Result.{GoError}
use datafuse_operator.Api.Types.{ComputeGroup, Operator}
use datafuse_operator.Client.Requests.{
  ListOptions, RestClient, list, watch, new_compute_groups, new_operators,
}
use datafuse_operator.Client.Informers.{SharedInformer}

-- `if tweakListOptions != nil { tweakListOptions(&options) }`
unfoldable pub tweaked :
    {Rest : Type 0}
    → Option (ListOptions Rest → ListOptions Rest)
    → ListOptions Rest
    → ListOptions Rest
tweaked none options = options
tweaked (some tweak) options = tweak options

abbrev pub Tweak : Type 0 → Type 0
Tweak Rest = ListOptions Rest → ListOptions Rest

module _ {Options Rest : Type 0} where
  module _ (R : RestClient ComputeGroup Options Rest) where
    -- ListFunc and WatchFunc of the informer of compute groups
    unfoldable pub list_groups_of :
        SharedInformer (Tweak Rest)
        → ListOptions Rest
        → R.State
        → (R.Objects × Option GoError) × R.State
    unfolding tweaked list new_compute_groups
    list_groups_of informer options =
        list R (λ g. g.meta.name) (new_compute_groups R (λ g. g.meta.name) informer.namespace)
          (tweaked informer.tweak options)

    unfoldable pub watch_groups_of :
        SharedInformer (Tweak Rest)
        → ListOptions Rest
        → R.State
        → (R.Watcher × Option GoError) × R.State
    unfolding tweaked watch new_compute_groups
    watch_groups_of informer options =
        watch R (λ g. g.meta.name) (new_compute_groups R (λ g. g.meta.name) informer.namespace)
          (tweaked informer.tweak options)

  module _ (R : RestClient Operator Options Rest) where
    -- ListFunc and WatchFunc of the informer of operators
    unfoldable pub list_operators_of :
        SharedInformer (Tweak Rest)
        → ListOptions Rest
        → R.State
        → (R.Objects × Option GoError) × R.State
    unfolding tweaked list new_operators
    list_operators_of informer options =
        list R (λ o. o.meta.name) (new_operators R (λ o. o.meta.name) informer.namespace)
          (tweaked informer.tweak options)

    unfoldable pub watch_operators_of :
        SharedInformer (Tweak Rest)
        → ListOptions Rest
        → R.State
        → (R.Watcher × Option GoError) × R.State
    unfolding tweaked watch new_operators
    watch_operators_of informer options =
        watch R (λ o. o.meta.name) (new_operators R (λ o. o.meta.name) informer.namespace)
          (tweaked informer.tweak options)
