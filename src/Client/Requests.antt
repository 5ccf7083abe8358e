-- ===== src/Client/Requests.antt =====
-- The typed clients of pkg/client/clientset/versioned/typed/datafuse/v1alpha1, datafusecomputegroup.go
-- and datafuseoperator.go, which are the same code for two resources: what they ask of the REST client
-- of client-go. A request is what its builder was given; sending it is a parameter.
use datafuse_operator.Prelude.{
  ℕ, ◌*◌, ◌≤◌, String, Bool, true, Option, none, some, List, [], ◌∷◌, ◌≡◌, arith,
}
use datafuse_operator.Go.Int.{ℤ, pos, scale, int64}
use datafuse_operator.Go.Result.{GoError}

-- How many nanoseconds a second has: time.Second
abbrev pub second : ℕ
second = 1000000000

-- The part of metav1.ListOptions that the clients read or write, and the rest.
pub record ListOptions (Rest : Type 0) : Type 0 where
  pub timeout_seconds : Option ℤ
  pub watch : Bool
  pub rest : Rest

-- `time.Duration(*opts.TimeoutSeconds) * time.Second`, or no timeout
unfoldable pub timeout_of : {Rest : Type 0} → ListOptions Rest → ℤ
unfolding scale int64
timeout_of opts = elim opts.timeout_seconds [ none ↦ pos 0 | some s ↦ int64 (scale s second) ]

pub data Verb : Type 0 where
  get_verb : Verb
  post_verb : Verb
  put_verb : Verb
  delete_verb : Verb
  patch_verb : String → Verb

module _ (T Options Rest : Type 0) where
  -- The argument of Body, and that of VersionedParams.
  pub data Body : Type 0 where
    no_body : Body
    object_body : T → Body
    options_body : Options → Body
    bytes_body : List ℕ → Body

  pub data Params : Type 0 where
    no_params : Params
    options_params : Options → Params
    list_params : ListOptions Rest → Params

  -- What rest.Request is given.
  pub record Request : Type 0 where
    pub verb : Verb
    pub namespace : String
    pub resource : String
    pub name : Option String
    pub sub_resources : List String
    pub params : Params
    pub timeout : Option ℤ
    pub body : Body

  -- The REST client: Do with Into, for an object and for a list, Do with Error, and Watch.
  pub record RestClient : Type 1 where
    pub State : Type 0
    pub Objects : Type 0
    pub Watcher : Type 0
    pub do_object : Request → State → (T × Option GoError) × State
    pub do_list : Request → State → (Objects × Option GoError) × State
    pub do_error : Request → State → Option GoError × State
    pub do_watch : Request → State → (Watcher × Option GoError) × State

module _ {T Options Rest : Type 0} (R : RestClient T Options Rest) (name_of : T → String) where
  -- datafuseComputeGroups and datafuseOperators, with the resource that their methods write
  pub record TypedClient : Type 0 where
    pub ns : String
    pub resource : String

  -- newDatafuseComputeGroups
  unfoldable pub new_compute_groups : String → TypedClient
  new_compute_groups namespace = record { ns = namespace; resource = "datafusecomputegroups" }

  -- newDatafuseOperators
  unfoldable pub new_operators : String → TypedClient
  new_operators namespace = record { ns = namespace; resource = "datafuseoperators" }

  -- `c.client.Verb().Namespace(c.ns).Resource(...)`
  abbrev pub base_request : TypedClient → Verb → Request T Options Rest
  base_request c verb = record {
    verb = verb;
    namespace = c.ns;
    resource = c.resource;
    name = none;
    sub_resources = [];
    params = no_params;
    timeout = none;
    body = no_body;
  }

  -- Get
  unfoldable pub get : TypedClient → String → Options → R.State → (T × Option GoError) × R.State
  get c name options =
      R.do_object
        (record (base_request c get_verb) { name = some name; params = options_params options })

  -- List
  unfoldable pub list :
      TypedClient → ListOptions Rest → R.State → (R.Objects × Option GoError) × R.State
  unfolding timeout_of
  list c opts = R.do_list (record (base_request c get_verb) {
    params = list_params opts;
    timeout = some (timeout_of opts);
  })

  -- Watch
  unfoldable pub watch :
      TypedClient → ListOptions Rest → R.State → (R.Watcher × Option GoError) × R.State
  unfolding timeout_of
  watch c opts = R.do_watch (record (base_request c get_verb) {
    params = list_params (record opts { watch = true });
    timeout = some (timeout_of opts);
  })

  -- Create
  unfoldable pub create : TypedClient → T → Options → R.State → (T × Option GoError) × R.State
  create c obj opts =
      R.do_object
        (record (base_request c post_verb) { params = options_params opts; body = object_body obj })

  -- Update
  unfoldable pub update : TypedClient → T → Options → R.State → (T × Option GoError) × R.State
  update c obj opts = R.do_object (record (base_request c put_verb) {
    name = some (name_of obj);
    params = options_params opts;
    body = object_body obj;
  })

  -- UpdateStatus
  unfoldable pub update_status :
      TypedClient → T → Options → R.State → (T × Option GoError) × R.State
  update_status c obj opts = R.do_object (record (base_request c put_verb) {
    name = some (name_of obj);
    sub_resources = "status" ∷ [];
    params = options_params opts;
    body = object_body obj;
  })

  -- Delete
  unfoldable pub delete : TypedClient → String → Options → R.State → Option GoError × R.State
  delete c name opts =
      R.do_error
        (record (base_request c delete_verb) { name = some name; body = options_body opts })

  -- DeleteCollection
  unfoldable pub delete_collection :
      TypedClient → Options → ListOptions Rest → R.State → Option GoError × R.State
  unfolding timeout_of
  delete_collection c opts list_opts = R.do_error (record (base_request c delete_verb) {
    params = list_params list_opts;
    timeout = some (timeout_of list_opts);
    body = options_body opts;
  })

  -- Patch
  unfoldable pub patch :
      TypedClient
      → String
      → String
      → List ℕ
      → Options
      → List String
      → R.State
      → (T × Option GoError) × R.State
  patch c name pt data_ opts sub_resources = R.do_object (record (base_request c (patch_verb pt)) {
    name = some name;
    sub_resources = sub_resources;
    params = options_params opts;
    body = bytes_body data_;
  })

-- A timeout of so many seconds, up to 9223372036 of them, is that many seconds in nanoseconds.
pub timeout_of-exact :
    {Rest : Type 0} (opts : ListOptions Rest) (s : ℕ)
    → opts.timeout_seconds ≡ some (pos s)
    → s ≤ 9223372036
    → timeout_of opts ≡ pos (s * second)
unfolding timeout_of scale int64
timeout_of-exact opts s given bound = rw given (ground arith)
