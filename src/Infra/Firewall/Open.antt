-- ===== src/Infra/Firewall/Open.antt =====
-- That the firewalls let in what the profiles dial: packages/infra/src/main.ts, gateway.ts and
-- edge.ts, with packages/vpn/src/singbox.ts.
use mathlib.Core.Path.{subst}
use jaritanet.Base.{
  ℕ, ◌≡◌, refl, sym, ap, ◌∙◌, ◌⊎◌, inl, inr, Option, none, some, List, [], ◌∷◌, ◌++◌, map, Text,
  codes, In, here, there, All, All-append, In-map, In-append_right, true, false, if◌then◌else◌,
}
use jaritanet.Base.Decimal.{decimal}
use jaritanet.Base.Members.{In_of_map, In_uncons}
use jaritanet.Vpn.Users.{VpnUser}
use jaritanet.Vpn.Hysteria.{HysteriaConf, HysteriaKeys}
use jaritanet.Vpn.Singbox.Data.{
  Hysteria, Reality, Xhttp, ResolvedNode, Outbound, hysteria2, vless, vless_xhttp, urltest_group,
  selector_group, shadowsocks, hy2, hy2_ports, reality, xhttp,
}
use jaritanet.Vpn.Singbox.Outbounds.{
  Client, is_admin, reality_leaves, xhttp_leaves, hy2_leaves, hy2_password, uuid_of, node_leaves,
  xhttp_entry,
}
use jaritanet.Vpn.Singbox.Profile.Leaves.{All-map}
use jaritanet.Infra.{returned}
use jaritanet.Infra.Cdn.{CdnEntry}
use jaritanet.Infra.Entries.{EdgeConf, Edge, hysteria_of, edge_node, singbox_nodes}
use jaritanet.Infra.Firewall.{
  InboundRule, inbound_rule, alt_rule, hysteria_rules, edge_rules, gateway_rules,
}
use jaritanet.Infra.Services.{Packages}
use jaritanet.Infra.Program.{Stack, Machines, Program, nodes_of, finish, program}
use jaritanet.Infra.Program.Runs.{program-Stages}

-- A rule for traffic that comes in opens the port to a protocol, from everywhere.
abbrev pub Opens : InboundRule → Text → ℕ → Type 0
Opens rule protocol port =
    (rule.direction ≡ codes "in")
    × (rule.protocol ≡ protocol)
    × (rule.port ≡ decimal port)
    × In (codes "0.0.0.0/0") rule.source_ips
    × In (codes "::/0") rule.source_ips

abbrev pub LetsIn : List InboundRule → Text → ℕ → Type 0
LetsIn rules protocol port = (rule : InboundRule) × In rule rules × Opens rule protocol port

-- What an outbound dials directly is let in; an entry behind the CDN is dialled at the CDN.
abbrev pub Reaches : List InboundRule → Outbound → Type 0
Reaches rules (hysteria2 o) = LetsIn rules (codes "udp") o.server_port
Reaches rules (vless o) = LetsIn rules (codes "tcp") o.server_port
Reaches rules (vless_xhttp o) = Unit
Reaches rules (urltest_group g) = Unit
Reaches rules (selector_group g) = Unit
Reaches rules (shadowsocks o) = Unit

module _ (user : VpnUser) (client : Client) (n : ResolvedNode) (rules : List InboundRule)
    (quic : (port : ℕ) → In port (hy2_ports n) → LetsIn rules (codes "udp") port)
    (https : LetsIn rules (codes "tcp") 443) where
  xhttp-Reach : All (Reaches rules) (xhttp_leaves user client n)
  unfolding xhttp_leaves xhttp
  xhttp-Reach =
      elim (xhttp_entry client n)
        as (λ o.
          All (Reaches rules)
            (elim o [ none ↦ [] | some cdn ↦ xhttp cdn n (uuid_of user client n) ∷ [] ])) [
              | none ↦ tt
              | some cdn ↦ (tt, tt)
            ]

  hy2-Reach : All (Reaches rules) (hy2_leaves user client n)
  unfolding hy2_leaves hy2
  hy2-Reach =
      elim (is_admin user)
        as (λ b.
          All (Reaches rules)
            (if b then map (hy2 n (hy2_password user client n)) (hy2_ports n) else [])) [
              | true ↦
                  All-map (Reaches rules) (hy2 n (hy2_password user client n)) (hy2_ports n) quic
              | false ↦ tt
            ]

  leaves-Reach : All (Reaches rules) (node_leaves user client n)
  unfolding node_leaves reality_leaves reality
  leaves-Reach =
      All-append (Reaches rules) (reality_leaves user client n)
        (xhttp_leaves user client n ++ hy2_leaves user client n)
        (All-map (Reaches rules) (reality n (uuid_of user client n)) n.reality.server_names
          (λ sni m. https))
        (All-append (Reaches rules) (xhttp_leaves user client n) (hy2_leaves user client n)
          xhttp-Reach hy2-Reach)

hysteria_rules-LetsIn :
    (conf : HysteriaConf) (port : ℕ)
    → In port (conf.port ∷ conf.alt_ports)
    → LetsIn (hysteria_rules conf) (codes "udp") port
unfolding inbound_rule
hysteria_rules-LetsIn conf port m = elim (In_uncons m) [
  | inl e ↦ (_, here, (refl, refl, ap decimal e, here, there here))
  | inr k ↦ (alt_rule port, there (In-map alt_rule k), (refl, refl, refl, here, there here))
]

-- More rules let in no less.
LetsIn-right :
    (rules more : List InboundRule) (protocol : Text) (port : ℕ)
    → LetsIn more protocol port
    → LetsIn (rules ++ more) protocol port
LetsIn-right rules more protocol port h = let (rule, m, o) = h in (rule, In-append_right rules m, o)

edge-Reach :
    (user : VpnUser) (client : Client) (conf : EdgeConf) (edge : Edge)
    → All (Reaches (edge_rules conf)) (node_leaves user client (edge_node conf edge))
unfolding edge_rules edge_node hysteria_of hy2_ports inbound_rule
edge-Reach user client conf edge =
    leaves-Reach user client (edge_node conf edge) (edge_rules conf)
      (λ port m.
        let (rule, k, o) = hysteria_rules-LetsIn conf.hysteria port m in (rule, there (there k), o))
      (_, there here, (refl, refl, refl, here, there here))

primary-Reach :
    (user : VpnUser) (client : Client) (n : ResolvedNode) (conf : HysteriaConf)
    (keys : HysteriaKeys) (api : Option Text)
    → hysteria_of conf keys ≡ n.hysteria
    → All (Reaches (gateway_rules (some conf) api)) (node_leaves user client n)
unfolding gateway_rules hysteria_of hy2_ports inbound_rule
primary-Reach user client n conf keys api e =
    leaves-Reach user client n (gateway_rules (some conf) api)
      (λ port m.
        let ports : List ℕ → Type 0 = λ ps. In port ps in
        let k : In port (conf.port ∷ conf.alt_ports) =
          subst (λ (h : Hysteria). In port (h.port ∷ h.alt_ports)) (sym e) m in
        let (rule, l, o) = hysteria_rules-LetsIn conf port k in
        (rule, there (there (there (there (In-append_right _ l)))), o))
      (_, there (there here), (refl, refl, refl, here, there here))

-- A node is the primary, at the given address and with the given hysteria, or an edge.
singbox_nodes-cases :
    (ip : Text) (r : Option Reality) (h : Option Hysteria) (x : Option Xhttp)
    (edges : List ResolvedNode) (n : ResolvedNode)
    → In n (singbox_nodes ip r h x edges)
    → ((ip ≡ n.server) × (h ≡ some n.hysteria)) ⊎ In n edges
unfolding singbox_nodes
singbox_nodes-cases ip (some r) (some h) x edges n m = elim (In_uncons m) [
  | inl e ↦
      inl (ap (λ (k : ResolvedNode). k.server) e, ap (λ (k : ResolvedNode). some k.hysteria) e)
  | inr k ↦ inr k
]
singbox_nodes-cases ip none h x edges n m = inr m
singbox_nodes-cases ip (some r) none x edges n m = inr m

-- The hysteria of a node comes from the configuration.
from_conf :
    (o : Option HysteriaConf) (keys : HysteriaConf → HysteriaKeys) (h : Hysteria)
    → elim o [ none ↦ none | some conf ↦ some (hysteria_of conf (keys conf)) ] ≡ some h
    → (conf : HysteriaConf) × (o ≡ some conf) × (hysteria_of conf (keys conf) ≡ h)
from_conf none keys h e = cc e
from_conf (some conf) keys h e = (conf, refl, cc e)

edge_server : (conf : EdgeConf) (edge : Edge) → edge.vps_ip ≡ (edge_node conf edge).server
unfolding edge_node
edge_server conf edge = refl

module _ (pk : Packages) (stack : Stack) (m : Machines) (api : Option Text) where
  -- The machines that profiles dial, by their addresses, with their firewalls.
  abbrev pub machine_rules : List VpnUser → List (Text × List InboundRule)
  machine_rules us =
      (m.vps_ip, gateway_rules stack.hysteria api)
      ∷ map (λ conf. ((m.edge conf us).vps_ip, edge_rules conf)) stack.edges

  abbrev pub IsReached : List VpnUser → VpnUser → Client → ResolvedNode → Type 0
  IsReached us user client n =
      (rules : List InboundRule) × In (n.server, rules) (machine_rules us)
      × All (Reaches rules) (node_leaves user client n)

  nodes-IsReached :
      (us : List VpnUser) (cdn : CdnEntry) (user : VpnUser) (client : Client) (n : ResolvedNode)
      → In n (nodes_of pk stack m us cdn)
      → IsReached us user client n
  nodes-IsReached us cdn user client n k = elim (singbox_nodes-cases m.vps_ip _ _ cdn.xhttp _ n k) [
    | inl (ip, h) ↦
        let (conf, o, e) = from_conf stack.hysteria (λ c. m.hysteria c us) n.hysteria h in
        (
          gateway_rules (some conf) api,
          subst (λ p. In p (machine_rules us))
              (ap (λ a. (a, gateway_rules stack.hysteria api)) ip
                ∙ ap (λ c. (n.server, gateway_rules c api)) o)
              here,
          primary-Reach user client n conf (m.hysteria conf us) api e,
        )
    | inr l ↦
        let (conf, in_edges, e) = In_of_map (λ c. edge_node c (m.edge c us)) stack.edges l in
        (
          edge_rules conf,
          subst (λ a. In (a, edge_rules conf) (machine_rules us))
              (edge_server conf (m.edge conf us) ∙ ap (λ (r : ResolvedNode). r.server) e)
              (there (In-map (λ c. ((m.edge c us).vps_ip, edge_rules c)) in_edges)),
          subst (λ r. All (Reaches (edge_rules conf)) (node_leaves user client r)) e
              (edge-Reach user client conf (m.edge conf us)),
        )
  ]

  -- If the program runs through, then whatever a profile dials at one of its nodes, over TCP or UDP
  -- and not by way of the CDN, the firewall of the machine at that address lets in from everywhere.
  pub program-IsReached :
      (p : Program)
      → program pk stack m ≡ returned p
      → (user : VpnUser) (client : Client) (n : ResolvedNode) → In n p.nodes
      → IsReached p.users user client n
  unfolding finish
  program-IsReached p e user client n k =
      let s = program-Stages pk stack m p e in
      subst (λ us. IsReached us user client n) (ap (λ (r : Program). r.users) s.finished)
        (nodes-IsReached s.users s.cdn user client n
          (subst (λ (r : Program). In n r.nodes) (sym s.finished) k))
