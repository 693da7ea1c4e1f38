-- ===== src/Vpn/Xray.antt =====
-- The configuration of the REALITY and XHTTP inbounds, `createXray` of packages/vpn/src/xray.ts.
-- The keys, ids and the secret path are generated by Pulumi and are arguments.
pub mod Routing
pub mod Guests
pub mod Clients
use jaritanet.Base.{
  ℕ, Bool, true, false, ◌||◌, Option, none, some, List, [], ◌∷◌, ◌++◌, map, if◌then◌else◌, Text,
  codes, filter, starts_with,
}
use jaritanet.Base.Dicts.{Dict, lookup, put}
use jaritanet.Vpn.Users.{Role, admin, guest, VpnUser}

-- What a guest may not reach, `GUEST_DENY_CIDRS`.
abbrev pub guest_deny_cidrs : List Text
guest_deny_cidrs =
    codes "100.64.0.0/10"
    ∷ codes "fd7a:115c:a1e0::/48"
    ∷ codes "127.0.0.0/8"
    ∷ codes "0.0.0.0/8"
    ∷ codes "::1/128"
    ∷ codes "10.0.0.0/8"
    ∷ codes "172.16.0.0/12"
    ∷ codes "192.168.0.0/16"
    ∷ codes "169.254.0.0/16"
    ∷ codes "fc00::/7"
    ∷ []

pub record FinalRule : Type 0 where
  pub action : Text
  pub network : Option Text
  pub port : Option Text
  pub ip : List Text

-- `FREEDOM_FINAL_RULES`
abbrev pub freedom_final_rules : List FinalRule
freedom_final_rules =
    record {
      action = codes "allow";
      network = some (codes "tcp,udp");
      port = some (codes "53");
      ip = codes "127.0.0.1/32" ∷ [];
    }
    ∷ record {
      action = codes "allow";
      network = none;
      port = none;
      ip = codes "100.64.0.0/10" ∷ codes "fd7a:115c:a1e0::/48" ∷ [];
    }
    ∷ []

pub record XhttpConf : Type 0 where
  pub port : ℕ

pub record XrayConf : Type 0 where
  pub dest : Text
  pub server_names : List Text
  pub xhttp : Option XhttpConf

pub record Keypair : Type 0 where
  pub private_key : Text
  pub public_key : Text

-- A client of an inbound; the id is missing where no id is known for the name.
pub record XrayClient : Type 0 where
  pub id : Option Text
  pub email : Text
  pub flow : Option Text

pub record RealitySettings : Type 0 where
  pub dest : Text
  pub xver : ℕ
  pub server_names : List Text
  pub private_key : Text
  pub short_ids : List Text

pub record Sniffing : Type 0 where
  pub enabled : Bool
  pub dest_override : List Text
  pub route_only : Bool

-- The kind of the stream says its network and security; `show` is always false.
pub data Stream : Type 0 where
  reality_stream : RealitySettings → Stream
  -- The path and the mode.
  xhttp_stream : Text → Text → Stream

pub record Inbound : Type 0 where
  pub listen : Text
  pub port : ℕ
  pub protocol : Text
  pub clients : List XrayClient
  pub decryption : Text
  pub stream : Stream
  pub sniffing : Sniffing

pub data XrayOutbound : Type 0 where
  freedom : Text → List FinalRule → XrayOutbound
  blackhole : Text → XrayOutbound

-- A rule without users or addresses matches all.
pub record XrayRule : Type 0 where
  pub user : Option (List Text)
  pub ip : Option (List Text)
  pub network : Option Text
  pub outbound_tag : Text

pub record XrayConfig : Type 0 where
  pub loglevel : Text
  pub inbounds : List Inbound
  pub outbounds : List XrayOutbound
  pub domain_strategy : Text
  pub rules : List XrayRule

abbrev pub is_guest : VpnUser → Bool
is_guest user = elim user.role [ admin ↦ false | guest ↦ true ]

-- `uuids`, filled by the loop over the users; the id that is generated for a name depends on the
-- name alone.
unfoldable pub uuids_from : (Text → Text) → Dict → List VpnUser → Dict
unfolding put
uuids_from mint found [] = found
uuids_from mint found (u ∷ us) = uuids_from mint (put u.name (mint u.name) found) us

abbrev pub uuids : (Text → Text) → List VpnUser → Dict
uuids mint users = uuids_from mint [] users

unfoldable pub guests : List VpnUser → List Text
unfolding filter
guests users = map (λ (u : VpnUser). u.name) (filter is_guest users)

-- `/^(127\.|localhost:|\[::1\]:)/.test(dest) ? 1 : 0`
unfoldable pub xver : Text → ℕ
unfolding starts_with
xver dest =
    if starts_with (codes "127.") dest
      || starts_with (codes "localhost:") dest
      || starts_with (codes "[::1]:") dest
    then 1
    else 0

abbrev sniffing : Sniffing
sniffing = record {
  enabled = true;
  dest_override = codes "http" ∷ codes "tls" ∷ codes "quic" ∷ [];
  route_only = true;
}

unfoldable pub reality_clients : Dict → List VpnUser → List XrayClient
unfolding lookup
reality_clients ids users =
    map
      (λ (u : VpnUser). record {
        id = lookup u.name ids;
        email = u.name;
        flow = some (codes "xtls-rprx-vision");
      })
      users

unfoldable pub xhttp_clients : Dict → List VpnUser → List XrayClient
unfolding lookup
xhttp_clients ids users =
    map (λ (u : VpnUser). record { id = lookup u.name ids; email = u.name; flow = none }) users

unfoldable pub reality_inbound : XrayConf → Keypair → Text → Dict → List VpnUser → Inbound
unfolding reality_clients xver
reality_inbound xray keys short_id ids users = record {
  listen = codes "0.0.0.0";
  port = 443;
  protocol = codes "vless";
  clients = reality_clients ids users;
  decryption = codes "none";
  stream = reality_stream (record {
    dest = xray.dest;
    xver = xver xray.dest;
    server_names = xray.server_names;
    private_key = keys.private_key;
    short_ids = short_id ∷ [];
  });
  sniffing = sniffing;
}

unfoldable pub xhttp_inbounds : Option XhttpConf → Text → Dict → List VpnUser → List Inbound
unfolding xhttp_clients
xhttp_inbounds none path ids users = []
xhttp_inbounds (some conf) path ids users =
    record {
      listen = codes "0.0.0.0";
      port = conf.port;
      protocol = codes "vless";
      clients = xhttp_clients ids users;
      decryption = codes "none";
      stream = xhttp_stream path (codes "packet-up");
      sniffing = sniffing;
    }
    ∷ []

-- The block on guests, if there are any, and the default.
unfoldable pub xray_rules : List Text → List XrayRule
xray_rules [] =
    record {
      user = none;
      ip = none;
      network = some (codes "tcp,udp");
      outbound_tag = codes "direct";
    }
    ∷ []
xray_rules (g ∷ gs) =
    record {
      user = some (g ∷ gs);
      ip = some guest_deny_cidrs;
      network = none;
      outbound_tag = codes "block";
    }
    ∷ record {
      user = none;
      ip = none;
      network = some (codes "tcp,udp");
      outbound_tag = codes "direct";
    }
    ∷ []

unfoldable pub xray_config :
    XrayConf → Keypair → Text → Text → (Text → Text) → List VpnUser → XrayConfig
unfolding reality_inbound xhttp_inbounds uuids_from xray_rules guests
xray_config xray keys short_id path mint users = record {
  loglevel = codes "warning";
  inbounds =
      reality_inbound xray keys short_id (uuids mint users) users
      ∷ xhttp_inbounds xray.xhttp path (uuids mint users) users;
  outbounds = freedom (codes "direct") freedom_final_rules ∷ blackhole (codes "block") ∷ [];
  domain_strategy = codes "IPIfNonMatch";
  rules = xray_rules (guests users);
}
