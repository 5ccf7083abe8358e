-- ===== src/Kube/Objects.antt =====
-- Kubernetes API objects (k8s.io/api, k8s.io/apimachinery), with the fields that the source sets or reads.
use datafuse_operator.Prelude.{String, Bool, Option, List}
use datafuse_operator.Go.Int.{ℤ}
use datafuse_operator.Go.Map.{GoMap}

pub record OwnerReference : Type 0 where
  pub api_version : String
  pub kind : String
  pub name : String
  pub uid : String
  pub controller : Option Bool

pub record ObjectMeta : Type 0 where
  pub name : String
  pub namespace : String
  pub uid : String
  pub resource_version : String
  pub labels : GoMap String
  pub owner_references : Option (List OwnerReference)

pub record EnvVar : Type 0 where
  pub name : String
  pub value : String

pub record ContainerPort : Type 0 where
  pub name : String
  pub container_port : ℤ
  pub protocol : String

-- An HTTP probe of a port that is given by its name.
pub record Probe : Type 0 where
  pub path : String
  pub port : String
  pub scheme : String
  pub period_seconds : ℤ
  pub success_threshold : ℤ
  pub failure_threshold : ℤ
  pub timeout_seconds : ℤ

pub record ResourceList (Quantity : Type 0) : Type 0 where
  pub cpu : Quantity
  pub memory : Quantity

pub record ResourceRequirements (Quantity : Type 0) : Type 0 where
  pub requests : ResourceList Quantity
  pub limits : ResourceList Quantity

pub record Container (Quantity : Type 0) : Type 0 where
  pub name : String
  pub image : String
  pub image_pull_policy : String
  pub env : List EnvVar
  pub ports : List ContainerPort
  pub liveness_probe : Probe
  pub readiness_probe : Probe
  pub resources : ResourceRequirements Quantity
  pub args : List String

pub record PodSpec (Quantity : Type 0) : Type 0 where
  pub containers : List (Container Quantity)

pub record PodCondition : Type 0 where
  pub kind : String
  pub status : String

pub record PodStatus : Type 0 where
  pub pod_ip : String
  pub conditions : Option (List PodCondition)

pub record Pod (Quantity : Type 0) : Type 0 where
  pub meta : ObjectMeta
  pub spec : PodSpec Quantity
  pub status : PodStatus

pub record PodTemplateSpec (Quantity : Type 0) : Type 0 where
  pub meta : ObjectMeta
  pub spec : PodSpec Quantity

pub record DeploymentSpec (Quantity : Type 0) : Type 0 where
  pub replicas : Option ℤ
  pub match_labels : GoMap String
  pub template : PodTemplateSpec Quantity

pub record Deployment (Quantity : Type 0) : Type 0 where
  pub meta : ObjectMeta
  pub spec : DeploymentSpec Quantity

pub record ServicePort : Type 0 where
  pub name : String
  pub protocol : String
  pub target_port : ℤ
  pub port : ℤ

pub record ServiceSpec : Type 0 where
  pub selector : GoMap String
  pub ports : List ServicePort
  pub type_name : String

pub record Service : Type 0 where
  pub meta : ObjectMeta
  pub spec : ServiceSpec
