-- ===== src/Register/Web.antt =====
-- The HTTP calls of pkg/controllers/register/register.go. net/http and encoding/json are parameters.
use datafuse_operator.Prelude.{ℕ, String, ◌<>◌, List, ◌||◌, nat_eq, if◌then◌else◌}
use text.Mathlib.Text.{starts_with}
use datafuse_operator.Go.Text.{show_int}
use datafuse_operator.Go.Int.{pos}
use datafuse_operator.Go.Result.{Result, errorf}
use datafuse_operator.Go.Exec.{Exec, pure, raise, lift, ◌>>=◌, ◌>>◌}
use datafuse_operator.Register.Config.{ClusterNodeRequest}

pub record Web : Type 1 where
  -- the state of the servers that answer
  pub State : Type 0
  pub Request : Type 0
  pub Response : Type 0
  pub Bytes : Type 0
  -- http.NewRequest, of a method, a URL and a body; Header.Set
  pub new_request : String → String → Bytes → Result Request
  pub set_header : Request → String → String → Request
  -- client.Do and http.Get
  pub do_request : Request → State → Result Response × State
  pub http_get : String → State → Result Response × State
  pub status_code : Response → ℕ
  -- ioutil.ReadAll of the body
  pub read_all : Response → Result Bytes
  pub to_string : Bytes → String
  -- json.Marshal and json.Unmarshal
  pub marshal_node : ClusterNodeRequest → Result Bytes
  pub unmarshal_nodes : Bytes → Result (List ClusterNodeRequest)

-- httpParse
unfoldable pub http_parse : String → String
http_parse url =
    if starts_with url "http://" || starts_with url "https://" then url else "http://" <> url

module _ (W : Web) where
  open W use {State, Bytes, new_request, set_header, do_request, http_get, status_code, read_all}

  -- postHTTP
  unfoldable pub post_http : String → Bytes → Exec State (Unit {0})
  post_http url body = do
    let valid_url = http_parse url
    req ← lift (new_request "POST" valid_url body)
    let req' =
        set_header (set_header req "Content-Type" "application/json") "Accept" "application/json"
    resp ← do_request req'
    lift (read_all resp)
    pure tt

  -- getHTTP
  unfoldable pub get_http : String → Exec State Bytes
  get_http url = do
    resp ← http_get url
    if nat_eq (status_code resp) 200
        then lift (read_all resp)
        else raise (
            errorf ("reponse status is not ok, status code: " <> show_int (pos (status_code resp))))
