-- ===== src/Infra/Firewall.antt =====
-- The firewalls of the machines: `inboundRule` of packages/hetzner/src/vps.ts, and the rules that
-- packages/infra/src/gateway.ts and edge.ts make with it.
pub mod Open
use jaritanet.Base.{
  ℕ, Bool, true, false, Option, none, some, List, [], ◌∷◌, ◌++◌, map, if◌then◌else◌, Text, codes,
  is_truthy,
}
use jaritanet.Base.Decimal.{decimal}
use jaritanet.Vpn.Hysteria.{HysteriaConf}
use jaritanet.Infra.Entries.{EdgeConf}

pub record InboundRule : Type 0 where
  pub description : Text
  pub direction : Text
  pub port : Text
  pub protocol : Text
  pub source_ips : List Text

unfoldable pub inbound_rule : Text → ℕ → Text → InboundRule
inbound_rule description port protocol = record {
  description = description;
  direction = codes "in";
  port = decimal port;
  protocol = protocol;
  source_ips = codes "0.0.0.0/0" ∷ codes "::/0" ∷ [];
}

-- `` `Hysteria2 QUIC (alt ${port})` ``
abbrev pub alt_rule : ℕ → InboundRule
alt_rule port =
    inbound_rule (codes "Hysteria2 QUIC (alt " ++ (decimal port ++ codes ")")) port (codes "udp")

abbrev pub hysteria_rules : HysteriaConf → List InboundRule
hysteria_rules conf =
    inbound_rule (codes "Hysteria2 QUIC") conf.port (codes "udp") ∷ map alt_rule conf.alt_ports

unfoldable pub edge_rules : EdgeConf → List InboundRule
unfolding inbound_rule
edge_rules edge =
    inbound_rule (codes "SSH") 22 (codes "tcp")
    ∷ inbound_rule (codes "HTTPS / REALITY") 443 (codes "tcp")
    ∷ hysteria_rules edge.hysteria

-- The name of the API server on the tailnet, where it is asked for and there are both parts.
unfoldable pub api_tailnet_name : Bool → Option Text → Text → Option Text
unfolding is_truthy
api_tailnet_name true (some hostname) suffix =
    if is_truthy suffix then some (hostname ++ (codes "." ++ suffix)) else none
api_tailnet_name true none suffix = none
api_tailnet_name false hostname suffix = none

abbrev api_rules : Option Text → List InboundRule
api_rules none = inbound_rule (codes "k3s API server") 6443 (codes "tcp") ∷ []
api_rules (some name) = []

abbrev pub transport_rules : Option HysteriaConf → List InboundRule
transport_rules none = []
transport_rules (some conf) = hysteria_rules conf

unfoldable pub gateway_rules : Option HysteriaConf → Option Text → List InboundRule
unfolding inbound_rule
gateway_rules hysteria api =
    inbound_rule (codes "SSH") 22 (codes "tcp")
    ∷ inbound_rule (codes "HTTP") 80 (codes "tcp")
    ∷ inbound_rule (codes "HTTPS") 443 (codes "tcp")
    ∷ inbound_rule (codes "Tailscale direct connections") 41641 (codes "udp")
    ∷ (api_rules api ++ transport_rules hysteria)
