-- ===== src/Services/Examples.antt =====
-- Each theorem on services at a concrete input.
use jaritanet.Base.{
  ◌≡◌, refl, Bool, true, false, none, some, [], ◌∷◌, ◌++◌, Text, codes, text_eq, any, All,
}
use jaritanet.Services.{Persistence, ServiceArgs, Container, Objects}
use jaritanet.Services.Create.{create_service, is_repeated}
use jaritanet.Services.Volumes.{IsBacked, create_service-IsBacked}
use jaritanet.Services.Egress.{Destination}

abbrev music : Persistence
music = record {
  name = codes "music";
  storage_class_name = codes "local-storage";
  read_only = true;
  storage = codes "1Ti";
  node_affinity_hostname = codes "lady";
  host_path = codes "/mnt/music";
  mount_path = codes "/music";
}

abbrev navidrome : ServiceArgs
navidrome = record {
  health_check = none;
  http_port = 4533;
  image = record {
    repository = codes "deluan/navidrome";
    tag = codes "0.58.0";
    pull_policy = codes "IfNotPresent";
  };
  network_policy = true;
  persistence = music ∷ record music { name = codes "data"; read_only = false } ∷ [];
  replicas = 1;
  restrict_ingress = false;
}

abbrev generated : Text → Text
generated resource = resource ++ codes "-1a2b"

not_repeated : is_repeated navidrome.persistence ≡ false
unfolding is_repeated any text_eq
not_repeated = refl

create_service-IsBacked_example :
    (o : Objects) × (create_service generated (codes "navidrome") navidrome ≡ some o)
    × All (λ (c : Container). All (IsBacked generated o) c.volume_mounts) o.deployment.containers
create_service-IsBacked_example =
    create_service-IsBacked generated (codes "navidrome") navidrome not_repeated

abbrev router : Destination Text
router = record {
  address = codes "192.168.0.0/16";
  pod_label = λ key. none;
  namespace_label = λ key. none;
  protocol = codes "TCP";
  port = 80;
}

abbrev is_range : Text → Text → Bool
is_range address range = text_eq address range
