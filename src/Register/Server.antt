-- ===== src/Register/Server.antt =====
-- The query server that the tests of the register controller run (newHTTPTestServer of
-- pkg/controllers/register/register_test_utils.go), as the network of one server. JSON is not spelled
-- out: a body holds what its text encodes.
use datafuse_operator.Prelude.{
  String, ◌<>◌, not, ◌&&◌, ◌||◌, List, [], ◌∷◌, ◌==◌, eq_iff, if◌then◌else◌, ◌≡◌, refl, arith,
}
use datafuse_operator.Go.Int.{pos}
use datafuse_operator.Go.Result.{Result, ok, err, external}
use datafuse_operator.Register.Config.{
  ClusterNodeRequest, cluster_add, cluster_remove, cluster_list, cluster_config,
}
use datafuse_operator.Register.Web.{Web, post_http, get_http, http_parse}
use datafuse_operator.Register.Cluster.{IsClusterApi, listed}

pub data Body : Type 0 where
  empty : Body
  text : String → Body
  node : ClusterNodeRequest → Body
  nodes : List ClusterNodeRequest → Body

pub record Request : Type 0 where
  pub method : String
  pub url : String
  pub body : Body

-- `for _, item := range *nodes { if item.Name == node.Name { return } }; append`
unfoldable pub add_to : ClusterNodeRequest → List ClusterNodeRequest → List ClusterNodeRequest
add_to n [] = n ∷ []
add_to n (item ∷ items) = if item.name == n.name then item ∷ items else item ∷ add_to n items

-- The loop that keeps the items of another name.
unfoldable pub remove_from : ClusterNodeRequest → List ClusterNodeRequest → List ClusterNodeRequest
remove_from n [] = []
remove_from n (item ∷ items) =
    let rest = remove_from n items in if item.name == n.name then rest else item ∷ rest

-- json.Unmarshal into a node that was declared without a value; its error is not looked at.
unfoldable pub decoded : Body → ClusterNodeRequest
decoded (node n) = n
decoded _ = record { name = ""; address = ""; priority = pos 0 }

-- The address of the server.
abbrev pub server_address : String
server_address = "10.0.0.1:8080"

abbrev pub server_url : String → String
server_url path = "http://" <> server_address <> path

-- The handler: its four tests of the method and the path.
unfoldable pub serve :
    String → Request → List ClusterNodeRequest → Result Body × List ClusterNodeRequest
unfolding add_to remove_from decoded
serve config req items =
    if (req.method == "GET") && (req.url == server_url cluster_config)
    then (ok (text config), items)
    else if (req.method == "GET") && (req.url == server_url cluster_list)
    then (ok (nodes items), items)
    else if (req.method == "POST") && (req.url == server_url cluster_add)
    then (ok empty, add_to (decoded req.body) items)
    else if (req.method == "POST") && (req.url == server_url cluster_remove)
    then (ok empty, remove_from (decoded req.body) items)
    else (ok empty, items)

unfoldable pub decode_nodes : Body → Result (List ClusterNodeRequest)
decode_nodes (nodes items) = ok items
decode_nodes _ = err (external 3 "unexpected end of JSON input")

unfoldable pub show_body : Body → String
show_body (text s) = s
show_body _ = ""

module _ (config : String) where
  abbrev pub test_web : Web
  test_web = record {
    State = List ClusterNodeRequest;
    Request = Request;
    Response = Body;
    Bytes = Body;
    new_request = λ method url body. ok (record { method = method; url = url; body = body });
    set_header = λ req _ _. req;
    do_request = serve config;
    http_get = λ url. serve config (record { method = "GET"; url = url; body = empty });
    status_code = λ _. 200;
    read_all = λ body. ok body;
    to_string = show_body;
    marshal_node = λ n. ok (node n);
    unmarshal_nodes = decode_nodes;
  }

pub listed-add_to :
    (n : ClusterNodeRequest) (items : List ClusterNodeRequest) (k : String)
    → listed (add_to n items) k ≡ ((n.name == k) || listed items k)
unfolding add_to
listed-add_to n [] k = refl
listed-add_to n (item ∷ items) k =
    ground
      (arith, listed-add_to n items k, eq_iff item.name n.name, eq_iff item.name k, eq_iff n.name k)

pub listed-remove_from :
    (n : ClusterNodeRequest) (items : List ClusterNodeRequest) (k : String)
    → listed (remove_from n items) k ≡ (not (n.name == k) && listed items k)
unfolding remove_from
listed-remove_from n [] k = ground arith
listed-remove_from n (item ∷ items) k = ground (
  arith,
  listed-remove_from n items k,
  eq_iff item.name n.name,
  eq_iff item.name k,
  eq_iff n.name k,
)

-- The server of the tests keeps its nodes as the cluster API promises, through the HTTP calls of the
-- controller, from any list of nodes and with any configuration text.
pub test_web-IsClusterApi :
    (config : String) → IsClusterApi (test_web config) server_address (λ items. items)
unfolding serve decode_nodes decoded post_http get_http http_parse
test_web-IsClusterApi config = record {
  encodes = λ n. (node n, refl);
  adds = λ n b s e. let same : b ≡ node n = cc in rw same (refl, listed-add_to n s);
  removes = λ n b s e. let same : b ≡ node n = cc in rw same (refl, listed-remove_from n s);
  lists = λ s. (nodes s, refl, refl);
}
