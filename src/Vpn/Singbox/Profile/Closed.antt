-- ===== src/Vpn/Singbox/Profile/Closed.antt =====
-- The names that a profile of packages/vpn/src/singbox.ts refers to and those that it declares.
use mathlib.Core.Path.{subst}
use jaritanet.Base.{
  sym, List, [], ◌∷◌, ◌++◌, map, any, if◌then◌else◌, Text, In, here, there, All, All-append,
  All_map, In-append_right, In-map, flat_map, Bool-cases, inl, inr,
}
use jaritanet.Vpn.Users.{VpnUser}
use jaritanet.Vpn.Singbox.Data.{ResolvedNode, ResolvedExit, Outbound, tag_of, selector}
use jaritanet.Vpn.Singbox.Outbounds.{
  Client, entry_select, exit_select, is_admin, auto_tags, node_leaves, single_groups, host_groups,
  many_groups, entry_groups, effective_exits, exit_outbound, exit_groups, final_outbound, outbounds,
}
use jaritanet.Vpn.Singbox.Profile.{
  DnsServer, DnsRule, RouteRule, Profile, build_profile, dns, dns_servers, has_xhttp,
  local_resolver, resolver, route, route_rules,
}
use jaritanet.Vpn.Singbox.Profile.Leaves.{
  option_list, Declares, All-flat_map, NoReference, all_leaves_declared, leaves_refer,
  Declares-left, Declares-right,
}
use jaritanet.Vpn.Singbox.Profile.Resolvers.{Resolves, outbounds-Resolves}
use jaritanet.Vpn.Singbox.Profile.Groups.{Refers, entry_groups-Refers, exit_groups-Refers}

-- The profile refers only to outbounds and to DNS servers that it declares.
pub record IsClosed (p : Profile) : Type 0 where
  pub groups : All (Refers (Declares p.outbounds)) p.outbounds
  pub final : Declares p.outbounds p.route.final
  pub rules :
      All (λ (r : RouteRule). All (Declares p.outbounds) (option_list r.outbound)) p.route.rules
  pub detours :
      All (λ (s : DnsServer). All (Declares p.outbounds) (option_list s.detour)) p.dns.servers
  pub resolver : In p.route.default_domain_resolver (map (λ (s : DnsServer). s.tag) p.dns.servers)
  pub dns_final : In p.dns.final (map (λ (s : DnsServer). s.tag) p.dns.servers)
  pub dns_rules :
      All (λ (r : DnsRule). In r.server (map (λ (s : DnsServer). s.tag) p.dns.servers)) p.dns.rules
  pub resolvers :
      All (Resolves (λ t. In t (map (λ (s : DnsServer). s.tag) p.dns.servers))) p.outbounds

single_entry :
    (user : VpnUser) (client : Client) (n : ResolvedNode) (ts : List Text)
    → Declares (single_groups user client n ts) entry_select
unfolding single_groups selector
single_entry user client n [] = here
single_entry user client n (a ∷ []) = here
single_entry user client n (a ∷ b ∷ more) = there here

many_entry :
    (user : VpnUser) (client : Client) (nodes : List ResolvedNode)
    → Declares (many_groups user client nodes) entry_select
unfolding many_groups selector
many_entry user client nodes =
    In-map tag_of (In-append_right (flat_map (host_groups user client) nodes) (there here))

groups_entry :
    (user : VpnUser) (client : Client) (nodes : List ResolvedNode)
    → Declares (entry_groups user client nodes) entry_select
unfolding entry_groups
groups_entry user client [] = many_entry user client []
groups_entry user client (n ∷ []) = single_entry user client n (auto_tags user client n)
groups_entry user client (n ∷ m ∷ nodes) = many_entry user client (n ∷ m ∷ nodes)

module _ (user : VpnUser) (nodes : List ResolvedNode) (exits : List ResolvedExit)
    (client : Client) where
  abbrev os : List Outbound
  os = outbounds user nodes exits client

  abbrev leaves : List Outbound
  leaves = flat_map (node_leaves user client) nodes

  abbrev entries : List Outbound
  entries = entry_groups user client nodes

  -- What some part of the outbounds declares, they declare.
  of_entries : (t : Text) → Declares entries t → Declares os t
  unfolding outbounds
  of_entries t d =
      (Declares-right leaves _ (t ∷ [])
        (Declares-left entries (exit_groups (effective_exits user exits)) (t ∷ []) (d, tt))).0

  of_exits : (t : Text) → Declares (exit_groups (effective_exits user exits)) t → Declares os t
  unfolding outbounds
  of_exits t d =
      (Declares-right leaves _ (t ∷ [])
        (Declares-right entries (exit_groups (effective_exits user exits)) (t ∷ []) (d, tt))).0

  entry_declared : Declares os entry_select
  entry_declared = of_entries entry_select (groups_entry user client nodes)

  final_declared :
      (es : List ResolvedExit)
      → ((t : Text) → Declares (exit_groups es) t → Declares os t)
      → Declares os (final_outbound es)
  unfolding final_outbound exit_groups selector
  final_declared [] h = entry_declared
  final_declared (e ∷ es) h =
      h exit_select (In-map tag_of (In-append_right (map exit_outbound (e ∷ es)) (there here)))

  outbounds-Refers : All (Refers (Declares os)) os
  unfolding outbounds
  outbounds-Refers =
      let xs = exit_groups (effective_exits user exits) in
      let tags = λ (n : ResolvedNode) (m : In n nodes).
        Declares-left leaves (entries ++ xs) (auto_tags user client n)
          (all_leaves_declared user client nodes n m) in
      All-append (Refers (Declares os)) leaves (entries ++ xs)
        (All_map leaves (λ o e. subst (All (Declares os)) (sym e) tt)
          (All-flat_map NoReference (node_leaves user client) nodes
            (λ n m. leaves_refer user client n)))
        (All-append (Refers (Declares os)) entries xs
          (entry_groups-Refers (Declares os) user client nodes tags
            (λ o m. of_entries (tag_of o) (In-map tag_of m)))
          (exit_groups-Refers (Declares os) user client (effective_exits user exits) entry_declared
            (λ o m. of_exits (tag_of o) (In-map tag_of m))))

  resolver_declared : In (resolver user) (map (λ (s : DnsServer). s.tag) (dns_servers nodes client))
  unfolding resolver dns_servers
  resolver_declared = elim (Bool-cases (is_admin user)) [
    | inl h ↦ rw h here
    | inr h ↦ rw h (there here)
  ]

  local_detours :
      All
        (λ (s : DnsServer). All (Declares os) (option_list s.detour))
        (if any (has_xhttp client) nodes then local_resolver ∷ [] else [])
  local_detours = elim (Bool-cases (any (has_xhttp client) nodes)) [
    | inl h ↦ rw h (tt, tt)
    | inr h ↦ rw h tt
  ]

  -- For every user, nodes, exits and client: each group, selector default, detour and route of the
  -- profile names one of its outbounds, and each resolver, an outbound's own included, names one of its
  -- DNS servers.
  pub build_profile-IsClosed :
      (suffix : Text) → IsClosed (build_profile user nodes suffix exits client)
  unfolding build_profile dns route route_rules dns_servers
  build_profile-IsClosed suffix = record {
    groups = outbounds-Refers;
    final = final_declared (effective_exits user exits) of_exits;
    rules = ((entry_declared, tt), (tt, (tt, (tt, (tt, ((entry_declared, tt), tt))))));
    detours = ((entry_declared, tt), ((entry_declared, tt), ((entry_declared, tt), local_detours)));
    resolver = resolver_declared;
    dns_final = resolver_declared;
    dns_rules = (there (there here), tt);
    resolvers = outbounds-Resolves user nodes exits client;
  }
