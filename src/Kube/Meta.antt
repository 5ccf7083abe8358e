-- ===== src/Kube/Meta.antt =====
-- The functions of the Kubernetes libraries that the source calls on objects, and their documented
-- behaviour.
use datafuse_operator.Prelude.{String, Bool, true, false, Option, none, some, [], ◌∷◌, ◌≡◌, ◌==◌}
use datafuse_operator.Go.Int.{ℤ}
use datafuse_operator.Go.Result.{GoError, Result}
use datafuse_operator.Kube.Objects.{ObjectMeta, OwnerReference}

-- metav1.ObjectMeta with nothing set.
abbrev pub empty_meta : ObjectMeta
empty_meta = record {
  name = "";
  namespace = "";
  uid = "";
  resource_version = "";
  labels = none;
  owner_references = none;
}

pub record MetaFuncs : Type 0 where
  -- metav1.GetControllerOf and metav1.IsControlledBy, of an object and an owner by their metadata
  pub get_controller_of : ObjectMeta → Option OwnerReference
  pub is_controlled_by : ObjectMeta → ObjectMeta → Bool
  -- metav1.NewControllerRef, of an owner, a group version and a kind
  pub new_controller_ref : ObjectMeta → String → String → OwnerReference
  -- errors.IsNotFound and errors.NewNotFound, of a resource and a name
  pub is_not_found : GoError → Bool
  pub new_not_found : String → String → GoError
  -- err.Error()
  pub error_text : GoError → String

-- What the documentation of apimachinery says of them.
pub record IsLawful (M : MetaFuncs) : Type 0 where
  -- the controller of an object is the one that IsControlledBy compares with an owner, by UID
  pub controlled_by :
      (o owner : ObjectMeta) (r : OwnerReference)
      → M.get_controller_of o ≡ some r
      → M.is_controlled_by o owner ≡ (r.uid == owner.uid)
  pub not_controlled :
      (o owner : ObjectMeta) → M.get_controller_of o ≡ none → M.is_controlled_by o owner ≡ false
  -- a sole reference that NewControllerRef made is the controller
  pub sole_controller :
      (o owner : ObjectMeta) (api_version kind : String)
      → o.owner_references ≡ some (M.new_controller_ref owner api_version kind ∷ [])
      → M.get_controller_of o ≡ some (M.new_controller_ref owner api_version kind)
  -- GetControllerOf looks at the owner references alone
  pub by_references :
      (o o' : ObjectMeta)
      → o.owner_references ≡ o'.owner_references
      → M.get_controller_of o ≡ M.get_controller_of o'
  pub nil_references : (o : ObjectMeta) → o.owner_references ≡ none → M.get_controller_of o ≡ none
  pub no_references : (o : ObjectMeta) → o.owner_references ≡ some [] → M.get_controller_of o ≡ none
  pub ref_uid :
      (owner : ObjectMeta) (api_version kind : String)
      → (M.new_controller_ref owner api_version kind).uid ≡ owner.uid
  pub ref_kind :
      (owner : ObjectMeta) (api_version kind : String)
      → (M.new_controller_ref owner api_version kind).kind ≡ kind
  pub not_found : (resource name : String) → M.is_not_found (M.new_not_found resource name) ≡ true

-- resource.Quantity of apimachinery.
pub record Quantities : Type 1 where
  pub Quantity : Type 0
  pub new_milli_quantity : ℤ → Quantity
  -- MustParse panics on a text that is no quantity
  pub must_parse : String → Result Quantity
  -- a.Cmp(b) < 0
  pub less : Quantity → Quantity → Bool
