-- ===== src/Register/MockServer.antt =====
-- The address of the pods that the tests make for a server (makeMockPodFromServer of
-- pkg/controllers/register/register_test_utils.go).
use datafuse_operator.Prelude.{
  String, ◌<>◌, Bool, true, false, Option, some, List, [], ◌∷◌, ◌≡◌, refl, ap, ◌∙◌,
}
use Prim.Native.String.append
use datafuse_operator.Go.Int.{ℤ, pos, IsInt32, int32_of_IsInt32}
use datafuse_operator.Go.Text.{
  show_int, split_n, split_n-append, atoi-show_int, Lacks, trim_prefix-append,
}
use datafuse_operator.Go.Result.{Result, ok}
use datafuse_operator.Kube.Objects.{Pod, PodStatus, ResourceRequirements}
use datafuse_operator.Kube.Meta.{Quantities}
use datafuse_operator.Api.Types.{ComputeSetSpec}
use datafuse_operator.Api.DeepCopy.{copy_set_spec}
use datafuse_operator.Utils.Pods.{
  make_resource_requirements, convert_instance_spec_to_pod_spec, make_envs, make_ports,
  make_fuse_query_pod,
}
use datafuse_operator.Register.Config.{FuseQueryConfigs, build_pod_config}
use datafuse_operator.Register.Nodes.{pod_address}
use datafuse_operator.Register.RoundTrip.{
  Values, config_of, IsInt64-of-IsInt32, build_pod_config-make_fuse_query_pod,
}
use datafuse_operator.Register.MockPods.{
  default_compute_spec, create_mock_status, ready_if, at_ip, mock_pod_at, mock_pod_of,
  make_mock_pod_from_server,
}

split_address :
    (host port : String) → Lacks b':' host → split_n b':' (host <> ":" <> port) ≡ host ∷ port ∷ []
split_address host port h =
    let joined : host <> ":" <> port ≡ host <> String.◌∷◌ ":" port =
      ap (λ s. host <> s) (append.cons ":" "" port ∙ ap (String.◌∷◌ ":") (append.nil port)) in
    rw joined (split_n-append b':' host ":" port h refl)

-- The instance of a server at a port, and its values.
abbrev served_at : ℤ → ComputeSetSpec
served_at port = record default_compute_spec {
  instance_spec = record default_compute_spec.instance_spec { http_port = some port };
}

abbrev values_at : ℤ → Values
values_at port = record {
  cores = pos 1;
  mysql = pos 3306;
  clickhouse = pos 9000;
  http = port;
  metrics = pos 9098;
  rpc = pos 9091;
  priority = pos 1;
}

module _ (Q : Quantities) where
  open Q use {Quantity}

  -- The instance can be made when the resources of the default one can.
  served_pod :
      (port : ℤ) (name namespace group_key : String) (is_leader : Bool)
      (r : ResourceRequirements Quantity)
      → make_resource_requirements Q default_compute_spec.instance_spec ≡ ok r
      → (pod : Pod Quantity) × (make_fuse_query_pod Q
            (served_at port)
            name
            namespace
            group_key
            is_leader
          ≡ ok pod)
  unfolding make_fuse_query_pod convert_instance_spec_to_pod_spec make_resource_requirements
      make_envs make_ports
  served_pod port name namespace group_key is_leader r e = rw e (_, refl)

  -- The status that readiness and the address leave.
  at_ip-ready_if :
      (host : String) (is_ready : Bool) (pod : Pod Quantity)
      → (status : PodStatus) × (at_ip Q host (ready_if Q is_ready pod)
          ≡ record pod { status = status })
        × (status.pod_ip ≡ host)
  unfolding ready_if create_mock_status
  at_ip-ready_if host true pod = (_, refl, refl)
  at_ip-ready_if host false pod = (_, refl, refl)

  mock_pod_at_port :
      (port : ℤ) (group_key name namespace host : String) (is_leader is_ready : Bool)
      (pod : Pod Quantity)
      → IsInt32 port
      → make_fuse_query_pod Q (served_at port) name namespace group_key is_leader ≡ ok pod
      → mock_pod_at Q group_key name namespace is_leader is_ready host (ok port)
        ≡ ok (some (at_ip Q host (ready_if Q is_ready pod)))
  unfolding mock_pod_at copy_set_spec
  mock_pod_at_port port group_key name namespace host is_leader is_ready pod small made =
      rw (int32_of_IsInt32 port small) (rw made refl)

  -- Let the resources of the default instance be makeable, the host have no colon and the port be of
  -- int32. Of a server at `http://host:port`, makeMockPodFromServer makes a pod that the controller
  -- reaches at host:port, by the configuration that BuildPodConfig reads from it.
  pub make_mock_pod_from_server-pod_address :
      (host : String) (port : ℤ) (group_key name namespace : String) (is_leader is_ready : Bool)
      (r : ResourceRequirements Quantity)
      → make_resource_requirements Q default_compute_spec.instance_spec ≡ ok r
      → Lacks b':' host
      → IsInt32 port
      → (pod : Pod Quantity) × (config : FuseQueryConfigs) × (make_mock_pod_from_server Q
            ("http://" <> host <> ":" <> show_int port)
            group_key
            name
            namespace
            is_leader
            is_ready
          ≡ ok (some pod))
        × (build_pod_config Q pod ≡ ok config)
        × (pod_address Q pod config.http_port ≡ host <> ":" <> show_int port)
  unfolding make_mock_pod_from_server mock_pod_of
  make_mock_pod_from_server-pod_address host port group_key name namespace is_leader is_ready r e
        lacks small =
      let (pod, made) = served_pod port name namespace group_key is_leader r e in
      let (status, same, ip) = at_ip-ready_if host is_ready pod in
      let mock : List String → Result (Option (Pod Quantity)) =
        mock_pod_of Q group_key name namespace is_leader is_ready in
      (
        record pod { status = status },
        config_of (values_at port),
        (ap (λ s. mock (split_n b':' s))
              (trim_prefix-append "http://" (host <> ":" <> show_int port))
            ∙ ap mock (split_address host (show_int port) lacks)
            ∙ ap (mock_pod_at Q group_key name namespace is_leader is_ready host)
                (atoi-show_int port (IsInt64-of-IsInt32 port small))
            ∙ mock_pod_at_port port group_key name namespace host is_leader is_ready pod small made
            ∙ ap (λ p. ok (some p)) same),
        build_pod_config-make_fuse_query_pod Q (served_at port) (values_at port) name namespace
            group_key is_leader pod status
            (record {
              cores = refl;
              mysql = refl;
              clickhouse = refl;
              http = refl;
              metrics = refl;
              rpc = refl;
              priority = refl;
            })
            made,
        ap (λ i. i <> ":" <> show_int port) ip,
      )
