-- ===== src/Infra/Program.antt =====
-- The program as a whole, packages/infra/src/main.ts: what it computes from the configuration, and
-- the records and routes that it creates. The machines are an argument, by what they hand back.
pub mod Entry
pub mod Runs
use jaritanet.Base.{
  ℕ, Bool, true, false, Option, none, some, List, [], ◌∷◌, ◌++◌, map, flat_map, if◌then◌else◌, Text,
  codes, text_eq,
}
use jaritanet.Base.Dicts.{Dict, lookup}
use jaritanet.Dns.{Zone, DnsRecord, FastmailConf, create_fastmail_records, create_bluesky_records}
use jaritanet.Ingress.{Middleware, IngressRoute}
use jaritanet.Vpn.Users.{VpnUser}
use jaritanet.Vpn.Singbox.Data.{ResolvedNode, ResolvedExit}
use jaritanet.Vpn.Hysteria.{HysteriaConf, HysteriaKeys}
use jaritanet.Infra.{Route, RelyingParty, Result, returned, thrown, ◌>>=◌}
use jaritanet.Infra.Publish.{PublishContext, PublishedService, publish_routes}
use jaritanet.Infra.Exits.{
  ExitConf, BoundExit, NodePatch, ExitDaemonSet, resolved_exits, create_exit,
}
use jaritanet.Infra.Entries.{
  XrayKeys, EdgeConf, Edge, roster, hysteria_of, reality_of, edge_node, edge_records, singbox_nodes,
}
use jaritanet.Infra.Cdn.{CdnEntry, create_cdn_entry}
use jaritanet.Infra.Auth.{AuthEntry, create_auth_entry}
use jaritanet.Infra.Services.{
  TransmetSecrets, EstateContext, Packages, Collected, truthy, hostname_of,
}
use jaritanet.Infra.Services.Each.{create_services}

-- The primary's REALITY, and the hostname of its entry behind a CDN.
pub record XrayStack : Type 0 where
  pub server_names : List Text
  pub xhttp : Option Text

-- The configuration, stack.ts and the secrets, as far as the program reads it.
pub record Stack : Type 0 where
  pub vpn_users : Option Text
  pub exits : List ExitConf
  pub auth_key : Option Text
  pub edges : List EdgeConf
  pub zones : List Zone
  pub fastmail : FastmailConf
  pub bluesky : Text
  pub xray : Option XrayStack
  pub hysteria : Option HysteriaConf
  pub hostnames : Dict
  pub magicdns_suffix : Option Text
  pub koan_apns_key : Option Text
  pub transmet : Option TransmetSecrets
  pub github : Bool

-- What the created resources hand back: addresses, generated values and names.
pub record Machines : Type 0 where
  pub vps_ip : Text
  pub namespace : Text
  pub traefik : Text
  pub generated : Text → Text
  pub edge : EdgeConf → List VpnUser → Edge
  pub xray : XrayStack → List VpnUser → XrayKeys
  pub hysteria : HysteriaConf → List VpnUser → HysteriaKeys

pub record Program : Type 0 where
  pub users : List VpnUser
  pub exits : List ResolvedExit
  pub nodes : List ResolvedNode
  pub records : List DnsRecord
  pub ingress_routes : List IngressRoute
  pub clients : List RelyingParty
  pub published : List (Text × PublishedService)

-- The records of a zone's modules.
unfoldable pub module_records : Stack → Zone → List DnsRecord
unfolding flat_map text_eq create_fastmail_records create_bluesky_records
module_records stack zone =
    flat_map
      (λ name.
        if text_eq name (codes "fastmail")
        then create_fastmail_records zone stack.fastmail
        else create_bluesky_records zone stack.bluesky)
      zone.modules

module _ (pk : Packages) (stack : Stack) (m : Machines) where
  abbrev pub publish_context : PublishContext
  publish_context = record {
    zones = stack.zones;
    namespace = m.namespace;
    dns_target = m.vps_ip;
    traefik = some m.traefik;
  }

  -- `xray?.xhttpPath` and `xrayConf?.xhttp`
  abbrev pub secret_path : List VpnUser → Option Text
  secret_path users = elim stack.xray [ none ↦ none | some conf ↦ (m.xray conf users).xhttp_path ]

  abbrev pub cdn_hostname : Option Text
  cdn_hostname = elim stack.xray [ none ↦ none | some conf ↦ conf.xhttp ]

  abbrev pub nodes_of : List VpnUser → CdnEntry → List ResolvedNode
  nodes_of users cdn =
      singbox_nodes m.vps_ip
        (elim stack.xray [
          | none ↦ none
          | some conf ↦ some (reality_of conf.server_names (m.xray conf users))
        ])
        (elim stack.hysteria [
          | none ↦ none
          | some conf ↦ some (hysteria_of conf (m.hysteria conf users))
        ])
        cdn.xhttp (map (λ conf. edge_node conf (m.edge conf users)) stack.edges)

  abbrev is_filled : List ResolvedNode → Bool
  is_filled [] = false
  is_filled (_ ∷ _) = true

  abbrev pub estate_of : List ResolvedNode → EstateContext
  estate_of nodes = record {
    namespace = m.namespace;
    hostnames = stack.hostnames;
    traefik = some m.traefik;
    auth_hostname = lookup (codes "auth") stack.hostnames;
    koan_apns_key = stack.koan_apns_key;
    transmet = stack.transmet;
    has_nodes = is_filled nodes;
    magicdns_suffix = stack.magicdns_suffix;
  }

  abbrev pub auth_entry : AuthEntry
  auth_entry =
      create_auth_entry publish_context (truthy (lookup (codes "auth") stack.hostnames))
        stack.github

  -- The program behind all that can throw.
  unfoldable pub finish : List VpnUser → List BoundExit → CdnEntry → Collected → Program
  unfolding create_exit edge_node edge_records singbox_nodes create_auth_entry publish_routes
      module_records
  finish users exits cdn collected =
      let published = publish_routes publish_context (collected.routes ++ auth_entry.routes) in
      record {
        users = users;
        exits = map (λ e. (create_exit m.generated e).2) exits;
        nodes = nodes_of users cdn;
        records =
            flat_map (λ conf. edge_records stack.zones conf (m.edge conf users)) stack.edges
            ++ (flat_map (module_records stack) stack.zones ++ (cdn.records ++ published.records));
        ingress_routes =
            cdn.ingress_routes
            ++ (map (λ (a : Middleware × IngressRoute). a.1) collected.aliases
                ++ (auth_entry.ingress_routes ++ published.ingress_routes));
        clients = collected.clients;
        published = published.published;
      }

  unfoldable pub program : Result Program
  unfolding roster resolved_exits create_cdn_entry create_services finish
  program = roster stack.vpn_users >>= λ users.
      resolved_exits stack.exits stack.auth_key >>= λ exits.
      create_cdn_entry publish_context stack.hostnames cdn_hostname (secret_path users) >>= λ cdn.
      create_services pk (estate_of (nodes_of users cdn)) m.generated >>= λ collected.
      returned (finish users exits cdn collected)
