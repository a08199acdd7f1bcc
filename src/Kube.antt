-- ===== src/Kube.antt =====
-- The Kubernetes objects that internal/operator/controller.go builds: of each type, the fields that
-- the code sets or reads.
use clawbake.Base.{ℕ, String, List, Option, Text, Bool}

abbrev pub Labels : Type 0
Labels = List (String × String)

pub record Namespace : Type 0 where
  pub name : String
  pub labels : Labels

-- `created` says that the creation timestamp is set.
pub record PersistentVolumeClaim : Type 0 where
  pub created : Bool
  pub labels : Labels
  pub access_modes : List String
  pub storage_request : Option String
  pub storage_class_name : Option String

pub record VolumeMount : Type 0 where
  pub name : String
  pub mount_path : String
  pub sub_path : String

pub data VolumeSource : Type 0 where
  claim : String → VolumeSource
  empty_dir : VolumeSource

pub record Volume : Type 0 where
  pub name : String
  pub source : VolumeSource

pub record ContainerPort : Type 0 where
  pub name : String
  pub container_port : ℕ
  pub protocol : String

pub record Probe : Type 0 where
  pub path : String
  pub port : ℕ
  pub initial_delay_seconds : ℕ
  pub period_seconds : ℕ

-- A resource name with its quantity.
abbrev pub Quantities : Type 0
Quantities = List (String × String)

pub record ResourceRequirements : Type 0 where
  pub requests : Option Quantities
  pub limits : Option Quantities

pub record Container : Type 0 where
  pub name : String
  pub image : String
  pub command : List Text
  pub ports : List ContainerPort
  pub env : List (String × String)
  pub readiness_probe : Option Probe
  pub resources : ResourceRequirements
  pub volume_mounts : List VolumeMount

pub record PodSpec : Type 0 where
  pub fs_group : ℕ
  pub enable_service_links : Bool
  pub init_containers : List Container
  pub containers : List Container
  pub volumes : List Volume

pub record DeploymentSpec : Type 0 where
  pub replicas : ℕ
  pub selector : Labels
  pub template_labels : Labels
  pub pod_spec : PodSpec

pub record Deployment : Type 0 where
  pub labels : Labels
  pub spec : DeploymentSpec
  pub ready_replicas : ℕ

pub record ServicePort : Type 0 where
  pub name : String
  pub port : ℕ
  pub target_port : String
  pub protocol : String

pub record Service : Type 0 where
  pub labels : Labels
  pub selector : Labels
  pub ports : List ServicePort

pub record NetworkPolicyPeer : Type 0 where
  pub namespace_selector : Labels
  pub pod_selector : Labels

-- An empty `pod_selector` selects every pod of the namespace.
pub record NetworkPolicy : Type 0 where
  pub labels : Labels
  pub pod_selector : Labels
  pub policy_types : List String
  pub ingress : List (List NetworkPolicyPeer)
