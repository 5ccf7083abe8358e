-- ===== src/Client/Operators.antt =====
-- The client of the operators (datafuseOperators of
-- pkg/client/clientset/versioned/typed/datafuse/v1alpha1/datafuseoperator.go), whose methods send the
-- requests of Client/Requests for the resource of operators.
use datafuse_operator.Prelude.{ℕ, String, Option, List}
use datafuse_operator.Go.Result.{GoError}
use datafuse_operator.Api.Types.{Operator}
use datafuse_operator.Client.Requests.{
  ListOptions, RestClient, new_operators, get, list, watch, create, update, update_status, delete,
  delete_collection, patch,
}

module _ {Options Rest : Type 0} (R : RestClient Operator Options Rest) (namespace : String) where
  abbrev name_of : Operator → String
  name_of operator = operator.meta.name

  -- Get
  unfoldable pub operators_get : String → Options → R.State → (Operator × Option GoError) × R.State
  unfolding get new_operators
  operators_get name options = get R name_of (new_operators R name_of namespace) name options

  -- List
  unfoldable pub operators_list :
      ListOptions Rest → R.State → (R.Objects × Option GoError) × R.State
  unfolding list new_operators
  operators_list opts = list R name_of (new_operators R name_of namespace) opts

  -- Watch
  unfoldable pub operators_watch :
      ListOptions Rest → R.State → (R.Watcher × Option GoError) × R.State
  unfolding watch new_operators
  operators_watch opts = watch R name_of (new_operators R name_of namespace) opts

  -- Create
  unfoldable pub operators_create :
      Operator → Options → R.State → (Operator × Option GoError) × R.State
  unfolding create new_operators
  operators_create operator opts =
      create R name_of (new_operators R name_of namespace) operator opts

  -- Update
  unfoldable pub operators_update :
      Operator → Options → R.State → (Operator × Option GoError) × R.State
  unfolding update new_operators
  operators_update operator opts =
      update R name_of (new_operators R name_of namespace) operator opts

  -- UpdateStatus
  unfoldable pub operators_update_status :
      Operator → Options → R.State → (Operator × Option GoError) × R.State
  unfolding update_status new_operators
  operators_update_status operator opts =
      update_status R name_of (new_operators R name_of namespace) operator opts

  -- Delete
  unfoldable pub operators_delete : String → Options → R.State → Option GoError × R.State
  unfolding delete new_operators
  operators_delete name opts = delete R name_of (new_operators R name_of namespace) name opts

  -- DeleteCollection
  unfoldable pub operators_delete_collection :
      Options → ListOptions Rest → R.State → Option GoError × R.State
  unfolding delete_collection new_operators
  operators_delete_collection opts list_opts =
      delete_collection R name_of (new_operators R name_of namespace) opts list_opts

  -- Patch
  unfoldable pub operators_patch :
      String
      → String
      → List ℕ
      → Options
      → List String
      → R.State
      → (Operator × Option GoError) × R.State
  unfolding patch new_operators
  operators_patch name pt data_ opts sub_resources =
      patch R name_of (new_operators R name_of namespace) name pt data_ opts sub_resources
