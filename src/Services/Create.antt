-- ===== src/Services/Create.antt =====
-- The objects that `createService` of packages/k8s/src/service.ts makes.
use jaritanet.Base.{
  ℕ, ◌*◌, Bool, true, false, ◌||◌, Option, none, some, List, [], ◌∷◌, ◌++◌, map, ltb, any,
  if◌then◌else◌, Text, codes, text_eq,
}
use jaritanet.Services.{
  HealthCheck, Persistence, ServiceArgs, Probe, PersistentVolume, PersistentVolumeClaim, Mount,
  Volume, Container, Deployment, ServiceObject, pods_labelled, namespaces_labelled, ip_block,
  EgressRule, NetworkPolicy, Objects,
}

unfoldable pub probe : HealthCheck → ℕ → ℕ → Probe
probe hc http_port failure_threshold = record {
  path = hc.path;
  port = elim hc.port [ none ↦ http_port | some p ↦ p ];
  http_headers = hc.http_headers;
  initial_delay_seconds = hc.initial_delay_seconds;
  period_seconds = hc.period_seconds;
  timeout_seconds = hc.timeout_seconds;
  failure_threshold = failure_threshold;
  success_threshold = hc.success_threshold;
}

abbrev max : ℕ → ℕ → ℕ
max a b = if ltb a b then b else a

-- One of the probes, where health checks are configured and this one is enabled.
unfoldable pub probe_if :
    Option HealthCheck → (HealthCheck → Bool) → (HealthCheck → ℕ) → ℕ → Option Probe
unfolding probe
probe_if none enabled threshold http_port = none
probe_if (some hc) enabled threshold http_port =
    if enabled hc then some (probe hc http_port (threshold hc)) else none

abbrev pub startup_threshold : HealthCheck → ℕ
startup_threshold hc = max (hc.failure_threshold * 3) 30

-- `${serviceName}-${key}-${kind}`
unfoldable pub resource_of : Text → Text → Text → Text
resource_of service key kind = service ++ (codes "-" ++ (key ++ (codes "-" ++ kind)))

abbrev pub access_modes : Persistence → List Text
access_modes p = if p.read_only then codes "ReadOnlyMany" ∷ [] else codes "ReadWriteMany" ∷ []

unfoldable pub volume : Text → Persistence → PersistentVolume
unfolding resource_of
volume service p = record {
  resource = resource_of service p.name (codes "pv");
  access_modes = access_modes p;
  storage = p.storage;
  path = p.host_path;
  hostnames = p.node_affinity_hostname ∷ [];
  reclaim_policy = codes "Retain";
  storage_class_name = p.storage_class_name;
  volume_mode = codes "Filesystem";
  retain_on_delete = true;
}

-- The key of the claim is the key of its volume, since no two volumes share a name.
unfoldable pub claim : (Text → Text) → Text → Persistence → PersistentVolumeClaim
unfolding resource_of
claim generated service p = record {
  resource = resource_of service p.name (codes "pvc");
  access_modes = access_modes p;
  storage = p.storage;
  storage_class_name = p.storage_class_name;
  volume_name = generated (resource_of service p.name (codes "pv"));
  retain_on_delete = true;
}

unfoldable pub mount : Persistence → Mount
mount p = record { name = p.name; mount_path = p.mount_path; read_only = p.read_only }

-- `Object.entries` lists keys that are array indices first; the order of volumes says nothing.
unfoldable pub pod_volume : (Text → Text) → Text → Persistence → Volume
unfolding resource_of
pod_volume generated service p = record {
  name = p.name;
  claim_name = generated (resource_of service p.name (codes "pvc"));
}

unfoldable pub container : Text → ServiceArgs → Container
unfolding probe_if mount
container service args = record {
  name = service;
  image = args.image.repository ++ (codes ":" ++ args.image.tag);
  image_pull_policy = args.image.pull_policy;
  port_name = codes "http";
  container_port = args.http_port;
  volume_mounts = map mount args.persistence;
  liveness =
      probe_if args.health_check (λ hc. hc.enable_liveness) (λ hc. hc.failure_threshold)
        args.http_port;
  readiness =
      probe_if args.health_check (λ hc. hc.enable_readiness) (λ hc. hc.failure_threshold)
        args.http_port;
  startup = probe_if args.health_check (λ hc. hc.enable_startup) startup_threshold args.http_port;
  allow_privilege_escalation = false;
  seccomp_profile = codes "RuntimeDefault";
}

-- `persistence.length > 0`
abbrev is_persistent : List Persistence → Bool
is_persistent [] = false
is_persistent (_ ∷ _) = true

unfoldable pub deployment : (Text → Text) → Text → ServiceArgs → Deployment
unfolding container pod_volume
deployment generated service args = record {
  resource = service ++ codes "-deployment";
  replicas = args.replicas;
  match_app = service;
  label_app = service;
  automount_service_account_token = false;
  containers = container service args ∷ [];
  volumes = map (pod_volume generated service) args.persistence;
  delete_before_replace = is_persistent args.persistence;
}

unfoldable pub service_object : Text → ServiceArgs → ServiceObject
service_object service args = record {
  resource = service ++ codes "-service";
  name = service ++ codes "-service";
  protocol = codes "TCP";
  port = 80;
  target_port = args.http_port;
  selector_app = service;
}

-- What stays unreachable: the pods, services, the LAN, the node's own network and the tailnet.
abbrev pub private_ranges : List Text
private_ranges =
    codes "10.0.0.0/8"
    ∷ codes "172.16.0.0/12"
    ∷ codes "192.168.0.0/16"
    ∷ codes "169.254.0.0/16"
    ∷ codes "100.64.0.0/10"
    ∷ []

abbrev pub egress_rules : List EgressRule
egress_rules =
    record {
      to = namespaces_labelled (codes "kubernetes.io/metadata.name") (codes "kube-system") ∷ [];
      ports = (codes "UDP", 53) ∷ (codes "TCP", 53) ∷ [];
    }
    ∷ record { to = ip_block (codes "0.0.0.0/0") private_ranges ∷ []; ports = [] }
    ∷ []

unfoldable pub policy_of : Text → ServiceArgs → NetworkPolicy
policy_of service args = record {
  resource = service ++ codes "-netpol";
  name = service;
  pod_app = service;
  policy_types =
      if args.restrict_ingress then codes "Ingress" ∷ codes "Egress" ∷ [] else codes "Egress" ∷ [];
  ingress_from =
      if args.restrict_ingress
      then some (pods_labelled (codes "app.kubernetes.io/name") (codes "traefik") ∷ [])
      else none;
  egress = egress_rules;
}

unfoldable pub network_policy : Text → ServiceArgs → Option NetworkPolicy
unfolding policy_of
network_policy service args = if args.network_policy then some (policy_of service args) else none

-- Two volumes of one name would be two resources of one name, which Pulumi refuses.
unfoldable pub is_repeated : List Persistence → Bool
unfolding any text_eq
is_repeated [] = false
is_repeated (p ∷ ps) = any (λ (q : Persistence). text_eq q.name p.name) ps || is_repeated ps

unfoldable pub objects_of : (Text → Text) → Text → ServiceArgs → Objects
unfolding volume claim service_object deployment network_policy
objects_of generated service args = record {
  volumes = map (volume service) args.persistence;
  claims = map (claim generated service) args.persistence;
  service = service_object service args;
  deployment = deployment generated service args;
  policy = network_policy service args;
}

unfoldable pub create_service : (Text → Text) → Text → ServiceArgs → Option Objects
unfolding is_repeated objects_of
create_service generated service args =
    if is_repeated args.persistence then none else some (objects_of generated service args)
