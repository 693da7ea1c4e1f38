-- ===== src/Vpn/Singbox/Profile.antt =====
-- `buildProfile` of packages/vpn/src/singbox.ts: the whole document.
pub mod Leaves
pub mod Groups
pub mod Resolvers
pub mod Closed
pub mod Isolation
use jaritanet.Base.{
  ℕ, Bool, true, false, Option, none, some, List, [], ◌∷◌, ◌++◌, ◌&&◌, if◌then◌else◌, Text, codes,
  any,
}
use jaritanet.Vpn.Users.{VpnUser}
use jaritanet.Vpn.Singbox.Data.{ResolvedNode, ResolvedExit, Outbound}
use jaritanet.Vpn.Singbox.Outbounds.{
  Client, entry_select, is_admin, xhttp_entry, effective_exits, final_outbound, outbounds,
}

pub record DnsServer : Type 0 where
  pub type : Text
  pub tag : Text
  pub server : Option Text
  pub detour : Option Text

pub record DnsRule : Type 0 where
  pub domain_suffix : List Text
  pub server : Text

pub record Dns : Type 0 where
  pub servers : List DnsServer
  pub rules : List DnsRule
  pub final : Text
  pub strategy : Text
  pub optimistic : Bool
  pub timeout : Text

pub record Tun : Type 0 where
  pub tag : Text
  pub address : List Text
  pub mtu : ℕ
  pub auto_route : Bool
  pub strict_route : Bool
  pub stack : Text

-- The fields that a rule does not have are `none`.
pub record RouteRule : Type 0 where
  pub ip_cidr : List Text
  pub ip_version : Option ℕ
  pub port : Option ℕ
  pub protocol : Option Text
  pub action : Option Text
  pub outbound : Option Text

pub record Route : Type 0 where
  pub default_domain_resolver : Text
  pub rules : List RouteRule
  pub final : Text
  pub auto_detect_interface : Bool

pub record Profile : Type 0 where
  pub log_level : Text
  pub log_timestamp : Bool
  pub cache_enabled : Bool
  pub store_dns : Bool
  pub dns : Dns
  pub inbounds : List Tun
  pub outbounds : List Outbound
  pub route : Route

unfoldable pub resolver : VpnUser → Text
resolver user = if is_admin user then codes "gw-cache" else codes "cf-doh"

abbrev tunnelled : Text → Text → Text → DnsServer
tunnelled type tag server = record {
  type = type;
  tag = tag;
  server = some server;
  detour = some entry_select;
}

abbrev local_resolver : DnsServer
local_resolver = record { type = codes "local"; tag = codes "local"; server = none; detour = none }

has_xhttp : Client → ResolvedNode → Bool
has_xhttp client n = elim (xhttp_entry client n) [ none ↦ false | some _ ↦ true ]

unfoldable pub dns_servers : List ResolvedNode → Client → List DnsServer
unfolding has_xhttp
dns_servers nodes client =
    tunnelled (codes "udp") (codes "gw-cache") (codes "127.0.0.1")
    ∷ tunnelled (codes "https") (codes "cf-doh") (codes "1.1.1.1")
    ∷ tunnelled (codes "udp") (codes "ts-dns") (codes "100.100.100.100")
    ∷ (if any (has_xhttp client) nodes then local_resolver ∷ [] else [])

unfoldable pub dns : VpnUser → List ResolvedNode → Text → Client → Dns
dns user nodes magicdns_suffix client = record {
  servers = dns_servers nodes client;
  rules = record { domain_suffix = magicdns_suffix ∷ []; server = codes "ts-dns" } ∷ [];
  final = resolver user;
  strategy = codes "ipv4_only";
  optimistic = true;
  timeout = codes "3d";
}

abbrev pub tun_mtu : ℕ
tun_mtu = 1280

unfoldable pub tun : Tun
tun = record {
  tag = codes "tun-in";
  address = codes "198.18.0.1/30" ∷ codes "fdfe:dcba:9876::1/126" ∷ [];
  mtu = tun_mtu;
  auto_route = true;
  strict_route = true;
  stack = codes "mixed";
}

abbrev bare_rule : RouteRule
bare_rule = record {
  ip_cidr = [];
  ip_version = none;
  port = none;
  protocol = none;
  action = none;
  outbound = none;
}

unfoldable pub route_rules : List RouteRule
route_rules =
    record bare_rule { ip_cidr = codes "fd7a:115c:a1e0::/48" ∷ []; outbound = some entry_select }
    ∷ record bare_rule { ip_version = some 6; port = some 53; action = some (codes "hijack-dns") }
    ∷ record bare_rule { ip_version = some 6; action = some (codes "reject") }
    ∷ record bare_rule { action = some (codes "sniff") }
    ∷ record bare_rule { protocol = some (codes "dns"); action = some (codes "hijack-dns") }
    ∷ record bare_rule { ip_cidr = codes "100.64.0.0/10" ∷ []; outbound = some entry_select }
    ∷ []

unfoldable pub route : VpnUser → List ResolvedExit → Route
route user exits = record {
  default_domain_resolver = resolver user;
  rules = route_rules;
  final = final_outbound (effective_exits user exits);
  auto_detect_interface = true;
}

unfoldable pub build_profile :
    VpnUser → List ResolvedNode → Text → List ResolvedExit → Client → Profile
build_profile user nodes magicdns_suffix exits client = record {
  log_level = codes "info";
  log_timestamp = true;
  cache_enabled = true;
  store_dns = true;
  dns = dns user nodes magicdns_suffix client;
  inbounds = tun ∷ [];
  outbounds = outbounds user nodes exits client;
  route = route user exits;
}
