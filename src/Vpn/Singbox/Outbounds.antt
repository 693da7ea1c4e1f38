-- ===== src/Vpn/Singbox/Outbounds.antt =====
-- The outbounds of `buildProfile` of packages/vpn/src/singbox.ts: a leaf for each way into a node,
-- the groups over the leaves, and the exits.
use jaritanet.Base.{
  Bool, true, false, Option, none, some, List, [], ◌∷◌, ◌++◌, map, if◌then◌else◌, Text, codes,
  flat_map,
}
use jaritanet.Vpn.Users.{admin, guest, VpnUser}
use jaritanet.Base.Dicts.{lookup}
use jaritanet.Vpn.Singbox.Data.{
  ResolvedNode, ResolvedExit, Xhttp, Outbound, shadowsocks, hy2, hy2_ports, hy2_tags, reality,
  reality_tags, xhttp, xhttp_tag, urltest, selector,
}

-- The dialect of the profile.
pub data Client : Type 0 where
  sing_box sbr : Client

abbrev pub entry_select : Text
entry_select = codes "entry-select"

abbrev pub exit_select : Text
exit_select = codes "exit-select"

abbrev pub exit_direct : Text
exit_direct = codes "exit-direct"

abbrev pub auto_all : Text
auto_all = codes "auto-all"

abbrev pub is_admin : VpnUser → Bool
is_admin user = elim user.role [ admin ↦ true | guest ↦ false ]

abbrev pub is_sbr : Client → Bool
is_sbr sing_box = false
is_sbr sbr = true

-- `client === "sbr" ? nodes.filter((n) => n.xhttp) : []` includes a node, which is an object of its
-- own, exactly if the client is sbr and the node has the entry.
unfoldable pub xhttp_entry : Client → ResolvedNode → Option Xhttp
xhttp_entry client n = if is_sbr client then n.xhttp else none

unfoldable pub xhttp_tags : Client → ResolvedNode → List Text
unfolding xhttp_entry
xhttp_tags client n = elim (xhttp_entry client n) [ none ↦ [] | some _ ↦ xhttp_tag n ∷ [] ]

unfoldable pub auto_tag : ResolvedNode → Text
auto_tag n = codes "auto-" ++ n.name

-- `isAdmin ? exits : []`
unfoldable pub effective_exits : VpnUser → List ResolvedExit → List ResolvedExit
effective_exits user exits = if is_admin user then exits else []

module _ (user : VpnUser) (client : Client) where
  -- `autoTags` and `entryTags`, which are the same.
  unfoldable pub auto_tags : ResolvedNode → List Text
  auto_tags n =
      if is_admin user
      then hy2_tags n ++ (reality_tags n ++ xhttp_tags client n)
      else reality_tags n ++ xhttp_tags client n

  unfoldable pub entry_tags : ResolvedNode → List Text
  entry_tags n =
      if is_admin user
      then hy2_tags n ++ (reality_tags n ++ xhttp_tags client n)
      else reality_tags n ++ xhttp_tags client n

  unfoldable pub pick_tags : ResolvedNode → List Text
  pick_tags n = auto_tag n ∷ entry_tags n

  -- The user's id on a node.
  abbrev pub uuid_of : ResolvedNode → Option Text
  uuid_of n = lookup user.name n.reality.uuids

  -- `${user.name}:${n.hysteria.passwords[user.name]}`
  unfoldable pub hy2_password : ResolvedNode → Text
  hy2_password n =
      user.name
      ++ (codes ":" ++ elim (lookup user.name n.hysteria.passwords) [
        | none ↦ codes "undefined"
        | some password ↦ password
      ])

  unfoldable pub reality_leaves : ResolvedNode → List Outbound
  reality_leaves n = map (reality n (uuid_of n)) n.reality.server_names

  unfoldable pub xhttp_leaves : ResolvedNode → List Outbound
  unfolding xhttp_entry
  xhttp_leaves n = elim (xhttp_entry client n) [
    | none ↦ []
    | some cdn ↦ xhttp cdn n (uuid_of n) ∷ []
  ]

  unfoldable pub hy2_leaves : ResolvedNode → List Outbound
  hy2_leaves n = if is_admin user then map (hy2 n (hy2_password n)) (hy2_ports n) else []

  unfoldable pub node_leaves : ResolvedNode → List Outbound
  node_leaves n = reality_leaves n ++ (xhttp_leaves n ++ hy2_leaves n)

  -- Nothing to choose between where there is one candidate.
  unfoldable pub single_groups : ResolvedNode → List Text → List Outbound
  single_groups n (a ∷ b ∷ more) =
      urltest (codes "auto") (a ∷ b ∷ more)
      ∷ selector entry_select (codes "auto" ∷ entry_tags n) (some (codes "auto"))
      ∷ []
  single_groups n (a ∷ []) = selector entry_select (a ∷ []) (some a) ∷ []
  single_groups n [] = selector entry_select [] none ∷ []

  unfoldable pub host_groups : ResolvedNode → List Outbound
  host_groups n =
      urltest (auto_tag n) (auto_tags n) ∷ selector n.name (pick_tags n) (some (auto_tag n)) ∷ []

  unfoldable pub many_groups : List ResolvedNode → List Outbound
  many_groups nodes =
      flat_map host_groups nodes
      ++ (urltest auto_all (flat_map auto_tags nodes)
          ∷ selector entry_select (auto_all ∷ map (λ (n : ResolvedNode). n.name) nodes)
              (some auto_all)
          ∷ [])

  unfoldable pub entry_groups : List ResolvedNode → List Outbound
  entry_groups (n ∷ []) = single_groups n (auto_tags n)
  entry_groups nodes = many_groups nodes

unfoldable pub exit_tag : ResolvedExit → Text
exit_tag e = codes "exit-" ++ e.name

unfoldable pub exit_outbound : ResolvedExit → Outbound
exit_outbound e = shadowsocks (record {
  tag = exit_tag e;
  server = e.server;
  server_port = e.port;
  method = e.method;
  password = e.password;
  detour = entry_select;
})

-- The exit axis, where there are exits.
unfoldable pub exit_groups : List ResolvedExit → List Outbound
exit_groups [] = []
exit_groups (e ∷ es) =
    map exit_outbound (e ∷ es)
    ++ (selector exit_direct (entry_select ∷ []) (some entry_select)
        ∷ selector exit_select (exit_direct ∷ map exit_tag (e ∷ es)) (some exit_direct)
        ∷ [])

unfoldable pub final_outbound : List ResolvedExit → Text
final_outbound [] = entry_select
final_outbound (_ ∷ _) = exit_select

unfoldable pub outbounds : VpnUser → List ResolvedNode → List ResolvedExit → Client → List Outbound
outbounds user nodes exits client =
    flat_map (node_leaves user client) nodes
    ++ (entry_groups user client nodes ++ exit_groups (effective_exits user exits))
