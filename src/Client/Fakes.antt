-- ===== src/Client/Fakes.antt =====
-- The fake clients of pkg/client/clientset/versioned/typed/datafuse/v1alpha1/fake,
-- fake_datafusecomputegroup.go and fake_datafuseoperator.go, which are the same code for two types: the
-- actions that they give to the object tracker of client-go, which is a parameter.
use datafuse_operator.Prelude.{
  ℕ, String, Bool, true, Option, none, some, List, [], ◌∷◌, ◌≡◌, if◌then◌else◌, Bool-cases, inl,
  inr, All,
}
use datafuse_operator.Go.Map.{GoMap}
use datafuse_operator.Go.Result.{GoError}
use datafuse_operator.Client.Requests.{ListOptions}

module _ (T Rest : Type 0) where
  -- The actions of client-go's testing package, in a namespace, less the resource.
  pub data Action : Type 0 where
    get_action : String → String → Action
    list_action : String → String → ListOptions Rest → Action
    watch_action : String → ListOptions Rest → Action
    create_action : String → T → Action
    update_action : String → T → Action
    update_subresource_action : String → String → T → Action
    delete_action : String → String → Action
    delete_collection_action : String → ListOptions Rest → Action
    patch_subresource_action : String → String → String → List ℕ → List String → Action

  -- testing.Fake, for a resource: Invokes with an object and with a list, InvokesWatch, and the label
  -- selectors of apimachinery. `none` is nil.
  pub record Fake : Type 1 where
    pub State : Type 0
    pub ListMeta : Type 0
    pub Watcher : Type 0
    pub Selector : Type 0
    pub invokes : String → Action → State → (Option T × Option GoError) × State
    pub invokes_list :
        String → Action → State → (Option (ListMeta × List T) × Option GoError) × State
    pub invokes_watch : String → Action → State → (Watcher × Option GoError) × State
    pub label_of : ListOptions Rest → Option Selector
    pub everything : Selector
    pub matches : Selector → GoMap String → Bool

module _ {T Rest : Type 0} (F : Fake T Rest) (labels : T → GoMap String) where
  -- FakeDatafuseComputeGroups and FakeDatafuseOperators, with the resource and the kind of their type
  pub record FakeClient : Type 0 where
    pub ns : String
    pub resource : String
    pub kind : String

  -- datafusecomputegroupsResource and datafusecomputegroupsKind
  unfoldable pub fake_compute_groups : String → FakeClient
  fake_compute_groups namespace = record {
    ns = namespace;
    resource = "datafusecomputegroups";
    kind = "DatafuseComputeGroup";
  }

  -- datafuseoperatorsResource and datafuseoperatorsKind
  unfoldable pub fake_operators : String → FakeClient
  fake_operators namespace = record {
    ns = namespace;
    resource = "datafuseoperators";
    kind = "DatafuseOperator";
  }

  -- Get
  unfoldable pub fake_get : FakeClient → String → F.State → (Option T × Option GoError) × F.State
  fake_get c name = F.invokes c.resource (get_action c.ns name)

  -- The loop of List over the items.
  unfoldable pub matching : F.Selector → List T → List T
  matching label [] = []
  matching label (item ∷ items) =
      let rest = matching label items in if F.matches label (labels item) then item ∷ rest else rest

  -- `label` in List
  abbrev pub selector : ListOptions Rest → F.Selector
  selector opts = elim (F.label_of opts) [ none ↦ F.everything | some label ↦ label ]

  -- List
  unfoldable pub fake_list :
      FakeClient
      → ListOptions Rest
      → F.State
      → (Option (F.ListMeta × List T) × Option GoError) × F.State
  unfolding matching
  fake_list c opts s =
      let (answer, s') = F.invokes_list c.resource (list_action c.kind c.ns opts) s in
      let (obj, e) = answer in
      (
        (
          elim obj [ none ↦ none | some found ↦ some (found.0, matching (selector opts) found.1) ],
          e,
        ),
        s',
      )

  -- Watch
  unfoldable pub fake_watch :
      FakeClient → ListOptions Rest → F.State → (F.Watcher × Option GoError) × F.State
  fake_watch c opts = F.invokes_watch c.resource (watch_action c.ns opts)

  -- Create
  unfoldable pub fake_create : FakeClient → T → F.State → (Option T × Option GoError) × F.State
  fake_create c obj = F.invokes c.resource (create_action c.ns obj)

  -- Update
  unfoldable pub fake_update : FakeClient → T → F.State → (Option T × Option GoError) × F.State
  fake_update c obj = F.invokes c.resource (update_action c.ns obj)

  -- UpdateStatus
  unfoldable pub fake_update_status :
      FakeClient → T → F.State → (Option T × Option GoError) × F.State
  fake_update_status c obj = F.invokes c.resource (update_subresource_action "status" c.ns obj)

  -- Delete
  unfoldable pub fake_delete : FakeClient → String → F.State → Option GoError × F.State
  fake_delete c name s =
      let (answer, s') = F.invokes c.resource (delete_action c.ns name) s in (answer.1, s')

  -- DeleteCollection
  unfoldable pub fake_delete_collection :
      FakeClient → ListOptions Rest → F.State → Option GoError × F.State
  fake_delete_collection c list_opts s =
      let (answer, s') = F.invokes_list c.resource (delete_collection_action c.ns list_opts) s in
      (answer.1, s')

  -- Patch
  unfoldable pub fake_patch :
      FakeClient
      → String
      → String
      → List ℕ
      → List String
      → F.State
      → (Option T × Option GoError) × F.State
  fake_patch c name pt data_ sub_resources =
      F.invokes c.resource (patch_subresource_action c.ns name pt data_ sub_resources)

  -- All that List keeps matches the selector.
  matching-Matches :
      (label : F.Selector) (items : List T)
      → All (λ item. F.matches label (labels item) ≡ true) (matching label items)
  unfolding matching
  matching-Matches label [] = tt
  matching-Matches label (item ∷ items) = elim (Bool-cases (F.matches label (labels item))) [
    | inl given ↦ rw given (given, matching-Matches label items)
    | inr differs ↦ rw differs (matching-Matches label items)
  ]
