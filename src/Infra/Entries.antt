-- ===== src/Infra/Entries.antt =====
-- Who may use the VPN and through which entries, packages/infra/src/main.ts: the roster, the edges
-- and the nodes of the profiles. What the transports of a machine hand back is an argument.
use jaritanet.Base.{
  false, Option, none, some, List, [], ◌∷◌, ◌++◌, Text, codes, text_eq, is_truthy, find?,
}
use jaritanet.Base.Dicts.{Dict}
use jaritanet.Dns.{Zone, DnsRecord, create_service_record}
use jaritanet.Vpn.Users.{
  VpnUser, admin, Parsed, users, invalid_name, duplicate_name, parse_vpn_users,
}
use jaritanet.Vpn.Hysteria.{HysteriaConf, HysteriaKeys}
use jaritanet.Vpn.Singbox.Data.{Hysteria, Reality, Xhttp, ResolvedNode}
use jaritanet.Infra.{Result, returned, thrown, bad_user, repeated_user, ◌>>=◌}
use jaritanet.Infra.Services.{truthy}

-- The one user of a deployment without a roster.
abbrev pub owner : VpnUser
owner = record { name = codes "owner"; role = admin }

abbrev pub or_owner : List VpnUser → List VpnUser
or_owner [] = owner ∷ []
or_owner (u ∷ us) = u ∷ us

abbrev pub parsed : Parsed → Result (List VpnUser)
parsed (users us) = returned us
parsed (invalid_name name) = thrown (bad_user name)
parsed (duplicate_name name) = thrown (repeated_user name)

abbrev pub parsed_roster : Option Text → Result (List VpnUser)
parsed_roster none = returned []
parsed_roster (some raw) = parsed (parse_vpn_users raw)

-- `secrets.vpnUsers ? parseVpnUsers(secrets.vpnUsers) : []`, or the owner.
unfoldable pub roster : Option Text → Result (List VpnUser)
unfolding is_truthy parse_vpn_users
roster secret = parsed_roster (truthy secret) >>= λ us. returned (or_owner us)

-- What `createXray` and its counterpart on an edge return; the path is the primary's.
pub record XrayKeys : Type 0 where
  pub public_key : Text
  pub short_id : Text
  pub uuids : Dict
  pub xhttp_path : Option Text

pub record EdgeConf : Type 0 where
  pub name : Text
  pub zone : Text
  pub hysteria : HysteriaConf
  pub server_name : Text

-- What `createEdge` returns.
pub record Edge : Type 0 where
  pub vps_ip : Text
  pub hysteria : HysteriaKeys
  pub xray : XrayKeys

unfoldable pub hysteria_of : HysteriaConf → HysteriaKeys → Hysteria
hysteria_of conf keys = record {
  alt_ports = conf.alt_ports;
  certificate = keys.certificate;
  obfs_password = keys.obfs_password;
  passwords = keys.passwords;
  port = conf.port;
  sni = conf.sni;
}

unfoldable pub reality_of : List Text → XrayKeys → Reality
reality_of server_names keys = record {
  public_key = keys.public_key;
  server_names = server_names;
  short_id = keys.short_id;
  uuids = keys.uuids;
}

-- An edge in the profiles, by its address and not by its name.
unfoldable pub edge_node : EdgeConf → Edge → ResolvedNode
unfolding hysteria_of reality_of
edge_node conf edge = record {
  name = conf.name;
  server = edge.vps_ip;
  hysteria = hysteria_of conf.hysteria edge.hysteria;
  reality = reality_of (conf.server_name ∷ []) edge.xray;
  xhttp = none;
}

-- The record of an edge, if its zone is configured.
unfoldable pub edge_records : List Zone → EdgeConf → Edge → List DnsRecord
unfolding find? text_eq create_service_record
edge_records zones conf edge = elim (find? (λ (z : Zone). text_eq z.name conf.zone) zones) [
  | none ↦ []
  | some zone ↦
      create_service_record edge.vps_ip zone (conf.name ++ (codes "." ++ conf.zone)) false ∷ []
]

-- The primary, where it has both transports, and then the edges.
unfoldable pub singbox_nodes :
    Text → Option Reality → Option Hysteria → Option Xhttp → List ResolvedNode → List ResolvedNode
singbox_nodes ip (some reality) (some hysteria) xhttp edges =
    record {
      name = codes "primary";
      server = ip;
      hysteria = hysteria;
      reality = reality;
      xhttp = xhttp;
    }
    ∷ edges
singbox_nodes ip none hysteria xhttp edges = edges
singbox_nodes ip (some reality) none xhttp edges = edges
