-- ===== src/Vpn/Singbox/Profile/Resolvers.antt =====
-- The DNS servers that the outbounds of a profile of packages/vpn/src/singbox.ts are resolved with.
use jaritanet.Base.{
  ◌≡◌, refl, Bool, true, false, ◌||◌, none, some, List, [], ◌∷◌, ◌++◌, map, Text, codes, In, here,
  there, All, All-append, any, flat_map, if◌then◌else◌,
}
use jaritanet.Vpn.Users.{VpnUser}
use jaritanet.Vpn.Singbox.Data.{
  ResolvedNode, ResolvedExit, Xhttp, Outbound, hysteria2, vless, vless_xhttp, urltest_group,
  selector_group, shadowsocks, hy2, hy2_ports, reality, xhttp, urltest, selector,
}
use jaritanet.Vpn.Singbox.Outbounds.{
  Client, is_admin, xhttp_entry, hy2_password, uuid_of, reality_leaves, xhttp_leaves, hy2_leaves,
  node_leaves, single_groups, host_groups, many_groups, entry_groups, effective_exits,
  exit_outbound, exit_groups, outbounds,
}
use jaritanet.Vpn.Singbox.Profile.{DnsServer, dns_servers, has_xhttp}
use jaritanet.Vpn.Singbox.Profile.Leaves.{All-map, All-flat_map}

-- The DNS servers that an outbound refers to.
abbrev pub resolvers_of : Outbound → List Text
resolvers_of (hysteria2 o) = []
resolvers_of (vless o) = []
resolvers_of (vless_xhttp o) = o.domain_resolver ∷ []
resolvers_of (urltest_group g) = []
resolvers_of (selector_group g) = []
resolvers_of (shadowsocks o) = []

any_In {ℓ} :
    {A : Type ℓ} (p : A → Bool) (xs : List A) {x : A} → In x xs → p x ≡ true → any p xs ≡ true
unfolding any
any_In p [] m h = elim m [ ]
any_In p (x ∷ xs) here h = rw h refl
any_In p (y ∷ xs) (there m) h =
    rw (any_In p xs m h) (elim (p y) as (λ b. (b || true) ≡ true) [ true ↦ refl | false ↦ refl ])

module _ (P : Text → Type 0) where
  abbrev pub Resolves : Outbound → Type 0
  Resolves o = All P (resolvers_of o)

  groups_Resolve :
      (user : VpnUser) (client : Client) (n : ResolvedNode)
      → All Resolves (host_groups user client n)
  unfolding host_groups urltest selector
  groups_Resolve user client n = (tt, (tt, tt))

  many_Resolve :
      (user : VpnUser) (client : Client) (nodes : List ResolvedNode)
      → All Resolves (many_groups user client nodes)
  unfolding many_groups urltest selector
  many_Resolve user client nodes =
      All-append Resolves (flat_map (host_groups user client) nodes) _
        (All-flat_map Resolves (host_groups user client) nodes
          (λ n m. groups_Resolve user client n))
        (tt, (tt, tt))

  single_Resolve :
      (user : VpnUser) (client : Client) (n : ResolvedNode) (ts : List Text)
      → All Resolves (single_groups user client n ts)
  unfolding single_groups urltest selector
  single_Resolve user client n [] = (tt, tt)
  single_Resolve user client n (a ∷ []) = (tt, tt)
  single_Resolve user client n (a ∷ b ∷ more) = (tt, (tt, tt))

  entries_Resolve :
      (user : VpnUser) (client : Client) (nodes : List ResolvedNode)
      → All Resolves (entry_groups user client nodes)
  unfolding entry_groups
  entries_Resolve user client [] = many_Resolve user client []
  entries_Resolve user client (n ∷ []) = single_Resolve user client n _
  entries_Resolve user client (n ∷ m ∷ nodes) = many_Resolve user client (n ∷ m ∷ nodes)

  exits_Resolve : (exits : List ResolvedExit) → All Resolves (exit_groups exits)
  unfolding exit_groups exit_outbound selector
  exits_Resolve [] = tt
  exits_Resolve (e ∷ es) =
      All-append Resolves (map exit_outbound (e ∷ es)) _
        (All-map Resolves exit_outbound (e ∷ es) (λ x m. tt)) (tt, (tt, tt))

  module _ (user : VpnUser) (client : Client) (n : ResolvedNode)
      (local : (cdn : Xhttp) → xhttp_entry client n ≡ some cdn → P (codes "local")) where
    xhttp_Resolve : All Resolves (xhttp_leaves user client n)
    unfolding xhttp_leaves xhttp
    xhttp_Resolve =
        (elim (xhttp_entry client n)
            as (λ o.
              xhttp_entry client n ≡ o
              → All Resolves
                  (elim o [ none ↦ [] | some cdn ↦ xhttp cdn n (uuid_of user client n) ∷ [] ])) [
                    | none ↦ λ e. tt
                    | some cdn ↦ λ e. ((local cdn e, tt), tt)
                  ])
          refl

    hy2_Resolve : All Resolves (hy2_leaves user client n)
    unfolding hy2_leaves hy2
    hy2_Resolve =
        elim (is_admin user)
          as (λ b.
            All Resolves
              (if b then map (hy2 n (hy2_password user client n)) (hy2_ports n) else [])) [
                | true ↦
                    All-map Resolves (hy2 n (hy2_password user client n)) (hy2_ports n) (λ x m. tt)
                | false ↦ tt
              ]

    leaves_Resolve : All Resolves (node_leaves user client n)
    unfolding node_leaves reality_leaves reality
    leaves_Resolve =
        All-append Resolves (reality_leaves user client n)
          (xhttp_leaves user client n ++ hy2_leaves user client n)
          (All-map Resolves (reality n (uuid_of user client n)) n.reality.server_names (λ x m. tt))
          (All-append Resolves (xhttp_leaves user client n) (hy2_leaves user client n) xhttp_Resolve
            hy2_Resolve)

-- The name of one of the profile's DNS servers.
abbrev pub IsServer : List ResolvedNode → Client → Text → Type 0
IsServer nodes client t = In t (map (λ (s : DnsServer). s.tag) (dns_servers nodes client))

-- Where a node has an entry behind the CDN, there is the local resolver.
local_IsServer :
    (client : Client) (nodes : List ResolvedNode) (n : ResolvedNode) (cdn : Xhttp)
    → In n nodes
    → xhttp_entry client n ≡ some cdn
    → IsServer nodes client (codes "local")
unfolding dns_servers has_xhttp
local_IsServer client nodes n cdn m e =
    let fronted : any (has_xhttp client) nodes ≡ true =
      any_In (has_xhttp client) nodes m (rw (e, has_xhttp) refl) in
    rw fronted (there (there (there here)))

pub outbounds-Resolves :
    (user : VpnUser) (nodes : List ResolvedNode) (exits : List ResolvedExit) (client : Client)
    → All (Resolves (IsServer nodes client)) (outbounds user nodes exits client)
unfolding outbounds
outbounds-Resolves user nodes exits client =
    let P = IsServer nodes client in
    let xs = exit_groups (effective_exits user exits) in
    All-append (Resolves P) (flat_map (node_leaves user client) nodes)
      (entry_groups user client nodes ++ xs)
      (All-flat_map (Resolves P) (node_leaves user client) nodes
        (λ n m. leaves_Resolve P user client n (λ cdn e. local_IsServer client nodes n cdn m e)))
      (All-append (Resolves P) (entry_groups user client nodes) xs
        (entries_Resolve P user client nodes) (exits_Resolve P (effective_exits user exits)))
