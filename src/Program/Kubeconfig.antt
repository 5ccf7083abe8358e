-- ===== src/Program/Kubeconfig.antt =====
-- utils/kube.go: where the configuration of the cluster is read from. The environment and client-go
-- are parameters.
use datafuse_operator.Prelude.{String, ◌<>◌, ◌==◌, if◌then◌else◌}
use datafuse_operator.Go.Result.{Result, GoError, ok, err, panic, errorf, ◌>>=◌}

-- GetKubeConfigLocation, for the flag, os.Getenv and clientcmd.RecommendedHomeFile
unfoldable pub get_kube_config_location : String → (String → String) → String → String
get_kube_config_location kube_config getenv home_file =
    if kube_config == ""
    then (if getenv "KUBECONFIG" == "" then home_file else getenv "KUBECONFIG")
    else kube_config

-- An error behind a text: fmt.Errorf with %w
abbrev pub wrap : {A : Type 0} → String → (GoError → String) → Result A → Result A
wrap text message (ok a) = ok a
wrap text message (err e) = err (errorf (text <> message e))
wrap text message panic = panic

module _ (Config Client : Type 0) (build_config_from_flags : String → String → Result Config)
    (new_for_config : Config → Result Client) (message : GoError → String) where
  -- GetK8sConfig, for the location
  unfoldable pub get_k8s_config : String → Result Config
  get_k8s_config location =
      wrap ("error building config from kubeconfig located in " <> location <> ": ") message
        (build_config_from_flags "" location)

  -- GetK8sClient
  unfoldable pub get_k8s_client : String → Result Client
  unfolding get_k8s_config
  get_k8s_client location = do
    config ← wrap "failed to get kubeconfig: " message (get_k8s_config location)
    wrap "failed to generate k8s client: " message (new_for_config config)
