-- ===== src/Home/Samba.antt =====
-- `createSamba` of packages/home/src/samba.ts: the configuration file of the server and the objects
-- that run it, as functions of the arguments after their defaults.
pub mod Exported
use jaritanet.Base.{
  ℕ, Bool, true, false, Option, none, some, List, [], ◌∷◌, ◌++◌, map, Text, codes, join,
}
use jaritanet.Base.Decimal.{decimal}

pub record SambaShare : Type 0 where
  pub name : Text
  pub host_path : Text

pub record SambaConf : Type 0 where
  pub image : Text
  pub lan_interface : Text
  pub allowed_networks : List Text
  pub guest_account : Text
  pub guest_uid : ℕ
  pub guest_gid : ℕ
  pub server_string : Text
  pub shares : List SambaShare
  pub workgroup : Text

unfoldable pub mount_path : Text → Text
mount_path name = codes "/shares/" ++ name

unfoldable pub share_block : SambaShare → Text
unfolding mount_path join
share_block share =
    codes "\n["
    ++ (share.name
        ++ (codes "]\n  path = "
            ++ (mount_path share.name
                ++ join (codes "\n") (
                    []
                    ∷ codes "  browseable = yes"
                    ∷ codes "  read only = yes"
                    ∷ codes "  guest ok = yes"
                    ∷ codes "  guest only = yes"
                    ∷ []
                    ∷ []))))

-- The lines of the configuration in front of the shares.
abbrev pub global_lines : SambaConf → List Text
unfolding join
global_lines samba =
    codes "[global]"
    ∷ (codes "  workgroup = " ++ samba.workgroup)
    ∷ (codes "  server string = " ++ samba.server_string)
    ∷ codes "  server role = standalone server"
    ∷ codes "  security = user"
    ∷ codes "  # Unknown users become the guest account rather than being rejected, which is"
    ∷ codes "  # what makes these shares anonymous. \"Bad User\" maps only unknown names; a"
    ∷ codes "  # known name with a bad password still fails."
    ∷ codes "  map to guest = Bad User"
    ∷ (codes "  guest account = " ++ samba.guest_account)
    ∷ codes "  # The control that actually runs. A hostNetwork pod bypasses the CNI, so no"
    ∷ codes "  # NetworkPolicy is in this path."
    ∷ (codes "  hosts allow = " ++ join (codes " ") samba.allowed_networks)
    ∷ codes "  server min protocol = SMB2"
    ∷ codes "  # Keeps smbd off 137, 138 and 139; nmbd is dropped by the DaemonSet."
    ∷ codes "  disable netbios = yes"
    ∷ codes "  smb ports = 445"
    ∷ codes "  load printers = no"
    ∷ codes "  printing = bsd"
    ∷ codes "  printcap name = /dev/null"
    ∷ codes "  disable spoolss = yes"
    ∷ codes "  # Share access is kubectl logs, not a file on the box."
    ∷ codes "  logging = stdout@1"
    ∷ []
    ∷ []

unfoldable pub smb_conf : SambaConf → Text
unfolding share_block join
smb_conf samba = join (codes "\n") (global_lines samba) ++ join [] (map share_block samba.shares)

pub record SambaMount : Type 0 where
  pub name : Text
  pub mount_path : Text
  pub sub_path : Option Text
  pub read_only : Bool

pub data Source : Type 0 where
  config_map : Text → Source
  -- A path of the machine, with the type that it must have.
  host : Text → Text → Source

pub record SambaVolume : Type 0 where
  pub name : Text
  pub source : Source

pub record SambaContainer : Type 0 where
  pub name : Text
  pub image : Text
  pub env : List (Text × Text)
  pub cpu_request : Text
  pub memory_request : Text
  pub memory_limit : Text
  pub volume_mounts : List SambaMount
  pub run_as_user : ℕ
  pub allow_privilege_escalation : Bool
  pub seccomp_profile : Text
  pub drop : List Text
  pub added : List Text

pub record SambaDaemonSet : Type 0 where
  pub name : Text
  pub namespace : Text
  pub labels : List (Text × Text)
  pub max_unavailable : ℕ
  pub max_surge : ℕ
  pub annotations : List (Text × Text)
  pub host_network : Bool
  pub dns_policy : Text
  pub automount_service_account_token : Bool
  pub node_selector : Text × Text
  pub container : SambaContainer
  pub volumes : List SambaVolume

pub record SambaConfigMap : Type 0 where
  pub name : Text
  pub namespace : Text
  pub data_of : List (Text × Text)

pub record SambaObjects : Type 0 where
  pub config : SambaConfigMap
  pub daemon_set : SambaDaemonSet

abbrev app : Text
app = codes "samba"

abbrev share_name : SambaShare → Text
share_name share = codes "share-" ++ share.name

unfoldable pub share_mount : SambaShare → SambaMount
unfolding mount_path
share_mount share = record {
  name = share_name share;
  mount_path = mount_path share.name;
  sub_path = none;
  read_only = true;
}

unfoldable pub share_volume : SambaShare → SambaVolume
share_volume share = record {
  name = share_name share;
  source = host share.host_path (codes "Directory");
}

unfoldable pub samba_container : SambaConf → SambaContainer
unfolding share_mount decimal
samba_container samba = record {
  name = app;
  image = samba.image;
  env =
      (codes "ACCOUNT_" ++ samba.guest_account, [])
      ∷ (codes "UID_" ++ samba.guest_account, decimal samba.guest_uid)
      ∷ (codes "GROUPID_" ++ samba.guest_account, decimal samba.guest_gid)
      ∷ (codes "NETBIOS_DISABLE", codes "1")
      ∷ (codes "WSDD2_DISABLE", codes "1")
      ∷ (codes "AVAHI_INTERFACES", samba.lan_interface)
      ∷ [];
  cpu_request = codes "100m";
  memory_request = codes "80Mi";
  memory_limit = codes "1Gi";
  volume_mounts =
      record {
        name = codes "config";
        mount_path = codes "/etc/samba/smb.conf";
        sub_path = some (codes "smb.conf");
        read_only = true;
      }
      ∷ map share_mount samba.shares;
  run_as_user = 0;
  allow_privilege_escalation = false;
  seccomp_profile = codes "RuntimeDefault";
  drop = codes "ALL" ∷ [];
  added =
      codes "NET_BIND_SERVICE"
      ∷ codes "SETUID"
      ∷ codes "SETGID"
      ∷ codes "SYS_CHROOT"
      ∷ codes "CHOWN"
      ∷ [];
}

unfoldable pub samba_volumes : Text → SambaConf → List SambaVolume
unfolding share_volume
samba_volumes config samba =
    record { name = codes "config"; source = config_map config } ∷ map share_volume samba.shares

unfoldable pub create_samba : Text → SambaConf → Text → SambaObjects
unfolding smb_conf samba_container samba_volumes
create_samba namespace samba node_label =
    let config : SambaConfigMap = record {
      name = app;
      namespace = namespace;
      data_of = (codes "smb.conf", smb_conf samba) ∷ [];
    } in
    record {
      config = config;
      daemon_set = record {
        name = app;
        namespace = namespace;
        labels = (codes "app", app) ∷ [];
        max_unavailable = 1;
        max_surge = 0;
        annotations = (codes "jaritanet/config", config.name) ∷ [];
        host_network = true;
        dns_policy = codes "Default";
        automount_service_account_token = false;
        node_selector = (node_label, codes "true");
        container = samba_container samba;
        volumes = samba_volumes config.name samba;
      };
    }
