-- ===== src/Register/Cluster.antt =====
-- What a leader's cluster API promises to the register controller, and what the calls of
-- pkg/controllers/register/register.go do to the list of nodes.
use datafuse_operator.Prelude.{
  String, ◌<>◌, Bool, not, ◌&&◌, ◌||◌, List, [], ◌∷◌, map, contains, ◌==◌, All, ◌≡◌, refl, arith,
}
use datafuse_operator.Prelude.{or_shift, and_shift}
use datafuse_operator.Go.Result.{Result, ok}
use datafuse_operator.Go.Exec.{for_each}
use datafuse_operator.Register.Config.{
  ClusterNodeRequest, FuseQueryConfigs, build_pod_config, cluster_add, cluster_remove, cluster_list,
}
use datafuse_operator.Register.Web.{Web, post_http, get_http}
use datafuse_operator.Register.Nodes.{
  pod_key, pod_address, node_request, add_node, remove_node, remove_config, get_cluster_list,
}
use datafuse_operator.Register.Listing.{RegisterDeps, APod}
use datafuse_operator.Register.Process.{NetState, remove_all}

abbrev pub names : List ClusterNodeRequest → List String
names = map (λ n. n.name)

-- Is a name on a list of nodes?
abbrev pub listed : List ClusterNodeRequest → String → Bool
listed nodes k = contains (names nodes) k

-- The server at an address keeps a list of nodes: /v1/cluster/add puts a node on it, /v1/cluster/remove
-- takes every node of a name off it, /v1/cluster/list prints it, and requests have a JSON form.
pub record IsClusterApi (W : Web) (address : String) (nodes : W.State → List ClusterNodeRequest)
    : Type 0 where
  pub encodes : (n : ClusterNodeRequest) → (b : W.Bytes) × (W.marshal_node n ≡ ok b)
  pub adds :
      (n : ClusterNodeRequest) (b : W.Bytes) (s : W.State)
      → W.marshal_node n ≡ ok b
      → ((post_http W (address <> cluster_add) b s).0 ≡ ok tt)
        × ((k : String)
            → listed (nodes (post_http W (address <> cluster_add) b s).1) k
              ≡ ((n.name == k) || listed (nodes s) k))
  pub removes :
      (n : ClusterNodeRequest) (b : W.Bytes) (s : W.State)
      → W.marshal_node n ≡ ok b
      → ((post_http W (address <> cluster_remove) b s).0 ≡ ok tt)
        × ((k : String)
            → listed (nodes (post_http W (address <> cluster_remove) b s).1) k
              ≡ (not (n.name == k) && listed (nodes s) k))
  pub lists :
      (s : W.State)
      → (b : W.Bytes) × (get_http W ("http://" <> address <> cluster_list) s ≡ (ok b, s))
        × (W.unmarshal_nodes b ≡ ok (nodes s))

module _ (D : RegisterDeps) where
  -- The keys of pods, by which the API names its nodes.
  abbrev pub pod_keys : List (APod D) → List String
  pod_keys = map (pod_key D.quantities)

  -- The pod's environment tells its RPC port and a priority that is a number.
  abbrev pub IsServable : APod D → Type 0
  IsServable p = (r : ClusterNodeRequest) × (node_request D.quantities D.meta p ≡ ok r)

  -- A run without an error behind which the list has just the names with `f`.
  abbrev pub Lists :
      (NetState D → List ClusterNodeRequest)
      → Result (Unit {0}) × NetState D
      → (String → Bool)
      → Type 0
  Lists nodes run f = (run.0 ≡ ok tt) × ((k : String) → listed (nodes run.1) k ≡ f k)

  name-node_request :
      (p : APod D) (r : ClusterNodeRequest)
      → node_request D.quantities D.meta p ≡ ok r
      → r.name ≡ pod_key D.quantities p
  unfolding node_request
  name-node_request p r h = ground arith

  module _ (leader : APod D) (config : FuseQueryConfigs)
      (configured : build_pod_config D.quantities leader ≡ ok config)
      (nodes : NetState D → List ClusterNodeRequest)
      (api : IsClusterApi D.web (pod_address D.quantities leader config.http_port) nodes) where
    abbrev address : String
    address = pod_address D.quantities leader config.http_port

    add_node-eq-post :
        (p : APod D) (r : ClusterNodeRequest) (b : D.web.Bytes) (s : NetState D)
        → node_request D.quantities D.meta p ≡ ok r
        → D.web.marshal_node r ≡ ok b
        → add_node D.quantities D.meta D.web leader p s
          ≡ post_http D.web (address <> cluster_add) b s
    unfolding add_node
    add_node-eq-post p r b s e f = rw (configured, e, f)

    remove_config-eq-post :
        (r : ClusterNodeRequest) (b : D.web.Bytes) (s : NetState D)
        → D.web.marshal_node r ≡ ok b
        → remove_config D.quantities D.meta D.web leader r s
          ≡ post_http D.web (address <> cluster_remove) b s
    unfolding remove_config
    remove_config-eq-post r b s f = rw (configured, f)

    pub Lists-add_node :
        (p : APod D) (s : NetState D)
        → IsServable p
        → Lists nodes
            (add_node D.quantities D.meta D.web leader p s)
            (λ k. (pod_key D.quantities p == k) || listed (nodes s) k)
    Lists-add_node p s (r, e) =
        let (b, f) = api.encodes r in
        rw (add_node-eq-post p r b s e f, ← name-node_request p r e) (api.adds r b s f)

    pub Lists-remove_config :
        (r : ClusterNodeRequest) (s : NetState D)
        → Lists nodes
            (remove_config D.quantities D.meta D.web leader r s)
            (λ k. not (r.name == k) && listed (nodes s) k)
    Lists-remove_config r s =
        let (b, f) = api.encodes r in rw (remove_config-eq-post r b s f) (api.removes r b s f)

    pub Lists-remove_node :
        (p : APod D) (s : NetState D)
        → IsServable p
        → Lists nodes
            (remove_node D.quantities D.meta D.web leader p s)
            (λ k. not (pod_key D.quantities p == k) && listed (nodes s) k)
    unfolding remove_node
    Lists-remove_node p s (r, e) = rw (e, ← name-node_request p r e) (Lists-remove_config r s)

    pub get_cluster_list_lem :
        (s : NetState D) → get_cluster_list D.quantities D.meta D.web leader s ≡ (ok (nodes s), s)
    unfolding get_cluster_list
    get_cluster_list_lem s = let (b, got, decoded) = api.lists s in rw (configured, got, decoded)

    pub Lists-add_nodes :
        (ps : List (APod D)) (s : NetState D)
        → All IsServable ps
        → Lists nodes
            (for_each (add_node D.quantities D.meta D.web leader) ps s)
            (λ k. contains (pod_keys ps) k || listed (nodes s) k)
    unfolding for_each
    Lists-add_nodes [] s _ = (refl, λ k. refl)
    Lists-add_nodes (p ∷ ps) s (h, hs) =
        let (ran, then_listed) = Lists-add_node p s h in
        let (ends, finally) = Lists-add_nodes ps _ hs in
        (
          rw ran ends,
          λ k. rw ran (
              rw finally (
                rw then_listed (
                  or_shift (contains (pod_keys ps) k) (pod_key D.quantities p == k)
                    (listed (nodes s) k)))),
        )

    pub Lists-remove_nodes :
        (ps : List (APod D)) (s : NetState D)
        → All IsServable ps
        → Lists nodes
            (for_each (remove_node D.quantities D.meta D.web leader) ps s)
            (λ k. not (contains (pod_keys ps) k) && listed (nodes s) k)
    unfolding for_each
    Lists-remove_nodes [] s _ = (refl, λ k. refl)
    Lists-remove_nodes (p ∷ ps) s (h, hs) =
        let (ran, then_listed) = Lists-remove_node p s h in
        let (ends, finally) = Lists-remove_nodes ps _ hs in
        (
          rw ran ends,
          λ k. rw ran (
              rw finally (
                rw then_listed (
                  and_shift (contains (pod_keys ps) k) (pod_key D.quantities p == k)
                    (listed (nodes s) k)))),
        )

    pub Lists-remove_all :
        (items : List ClusterNodeRequest) (s : NetState D)
        → Lists nodes
            (remove_all D leader items s)
            (λ k. not (listed items k) && listed (nodes s) k)
    unfolding remove_all
    Lists-remove_all [] s = (refl, λ k. refl)
    Lists-remove_all (item ∷ items) s =
        let (ran, then_listed) = Lists-remove_config item s in
        let (ends, finally) = Lists-remove_all items _ in
        (
          rw ran ends,
          λ k. rw ran (
              rw finally (
                rw then_listed (and_shift (listed items k) (item.name == k) (listed (nodes s) k)))),
        )
