-- ===== src/Services.antt =====
-- `createService` of packages/k8s/src/service.ts: the Kubernetes objects of a service, as functions
-- of its arguments after their defaults. The physical names that Pulumi gives to objects without
-- one are an argument. Resources and strategy, which are passed on as they are, are left out.
pub mod Create
pub mod Volumes
pub mod Egress
mod Examples
use jaritanet.Base.{ℕ, Bool, Option, List, Text}

pub record Header : Type 0 where
  pub name : Text
  pub value : Text

pub record HealthCheck : Type 0 where
  pub enable_liveness : Bool
  pub enable_readiness : Bool
  pub enable_startup : Bool
  pub failure_threshold : ℕ
  pub http_headers : List Header
  pub initial_delay_seconds : ℕ
  pub path : Text
  pub period_seconds : ℕ
  pub port : Option ℕ
  pub success_threshold : ℕ
  pub timeout_seconds : ℕ

pub record Persistence : Type 0 where
  pub name : Text
  pub storage_class_name : Text
  pub read_only : Bool
  pub storage : Text
  pub node_affinity_hostname : Text
  pub host_path : Text
  pub mount_path : Text

pub record Image : Type 0 where
  pub repository : Text
  pub tag : Text
  pub pull_policy : Text

pub record ServiceArgs : Type 0 where
  pub health_check : Option HealthCheck
  pub http_port : ℕ
  pub image : Image
  pub network_policy : Bool
  pub persistence : List Persistence
  pub replicas : ℕ
  pub restrict_ingress : Bool

-- A probe; the headers are left out where there are none, which reads the same.
pub record Probe : Type 0 where
  pub path : Text
  pub port : ℕ
  pub http_headers : List Header
  pub initial_delay_seconds : ℕ
  pub period_seconds : ℕ
  pub timeout_seconds : ℕ
  pub failure_threshold : ℕ
  pub success_threshold : ℕ

pub record PersistentVolume : Type 0 where
  pub resource : Text
  pub access_modes : List Text
  pub storage : Text
  pub path : Text
  pub hostnames : List Text
  pub reclaim_policy : Text
  pub storage_class_name : Text
  pub volume_mode : Text
  pub retain_on_delete : Bool

pub record PersistentVolumeClaim : Type 0 where
  pub resource : Text
  pub access_modes : List Text
  pub storage : Text
  pub storage_class_name : Text
  pub volume_name : Text
  pub retain_on_delete : Bool

pub record Mount : Type 0 where
  pub name : Text
  pub mount_path : Text
  pub read_only : Bool

pub record Volume : Type 0 where
  pub name : Text
  pub claim_name : Text

pub record Container : Type 0 where
  pub name : Text
  pub image : Text
  pub image_pull_policy : Text
  pub port_name : Text
  pub container_port : ℕ
  pub volume_mounts : List Mount
  pub liveness : Option Probe
  pub readiness : Option Probe
  pub startup : Option Probe
  pub allow_privilege_escalation : Bool
  pub seccomp_profile : Text

pub record Deployment : Type 0 where
  pub resource : Text
  pub replicas : ℕ
  pub match_app : Text
  pub label_app : Text
  pub automount_service_account_token : Bool
  pub containers : List Container
  pub volumes : List Volume
  pub delete_before_replace : Bool

pub record ServiceObject : Type 0 where
  pub resource : Text
  pub name : Text
  pub protocol : Text
  pub port : ℕ
  pub target_port : ℕ
  pub selector_app : Text

-- The peers of a rule: pods by a label, namespaces by a label, or addresses.
pub data Peer : Type 0 where
  pods_labelled : Text → Text → Peer
  namespaces_labelled : Text → Text → Peer
  -- A range without some ranges in it.
  ip_block : Text → List Text → Peer

-- Without ports a rule is about all of them.
pub record EgressRule : Type 0 where
  pub to : List Peer
  pub ports : List (Text × ℕ)

pub record NetworkPolicy : Type 0 where
  pub resource : Text
  pub name : Text
  pub pod_app : Text
  pub policy_types : List Text
  pub ingress_from : Option (List Peer)
  pub egress : List EgressRule

pub record Objects : Type 0 where
  pub volumes : List PersistentVolume
  pub claims : List PersistentVolumeClaim
  pub service : ServiceObject
  pub deployment : Deployment
  pub policy : Option NetworkPolicy
