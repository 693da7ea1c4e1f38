-- ===== src/Vpn/Singbox/Profile/Isolation.antt =====
-- What of the secrets a profile can depend on: `buildProfile` of packages/vpn/src/singbox.ts.
use jaritanet.Base.{
  ◌≡◌, refl, sym, ap, ◌∙◌, Option, none, some, List, [], ◌∷◌, ◌++◌, map, if◌then◌else◌, Text, codes,
  text_eq_refl, any, flat_map, Bool-cases, inl, inr, ◌||◌,
}
use jaritanet.Vpn.Users.{VpnUser, Role, admin, guest}
use jaritanet.Base.Dicts.{Dict, lookup}
use jaritanet.Vpn.Singbox.Data.{
  Hysteria, ResolvedNode, ResolvedExit, reality, reality_tag, reality_tags, hy2, hy2_tag, hy2_tags,
  hy2_ports, xhttp, xhttp_tag, urltest, selector,
}
use jaritanet.Vpn.Singbox.Outbounds.{
  Client, is_admin, xhttp_entry, xhttp_tags, auto_tag, auto_tags, entry_tags, pick_tags,
  hy2_password, reality_leaves, xhttp_leaves, hy2_leaves, node_leaves, single_groups, host_groups,
  many_groups, entry_groups, effective_exits, outbounds,
}
use jaritanet.Vpn.Singbox.Profile.{build_profile, dns, dns_servers, has_xhttp, route}

-- The user's own entry.
abbrev pub own : Text → Dict → Dict
own name d = elim (lookup name d) [ none ↦ [] | some v ↦ (name, v) ∷ [] ]

lookup-own : (name : Text) (d : Dict) → lookup name (own name d) ≡ lookup name d
unfolding lookup
lookup-own name d =
    elim (lookup name d)
      as (λ o. lookup name (elim o [ none ↦ [] | some v ↦ (name, v) ∷ [] ]) ≡ o) [
        | none ↦ refl
        | some v ↦ rw text_eq_refl refl
      ]

abbrev blank : Hysteria
blank = record {
  alt_ports = [];
  certificate = [];
  obfs_password = [];
  passwords = [];
  port = 0;
  sni = [];
}

-- What a node has for a user: of the passwords and ids the user's own, and for a guest nothing of
-- its hysteria.
abbrev pub visible : VpnUser → ResolvedNode → ResolvedNode
visible user n = record n {
  hysteria =
      if is_admin user
      then record n.hysteria { passwords = own user.name n.hysteria.passwords }
      else blank;
  reality = record n.reality { uuids = own user.name n.reality.uuids };
}

flat_map-map {ℓ κ} :
    {A : Type ℓ} {B : Type κ} (f : A → List B) (v : A → A)
    → ((x : A) → f (v x) ≡ f x)
    → (xs : List A) → flat_map f (map v xs) ≡ flat_map f xs
unfolding flat_map
flat_map-map f v h [] = refl
flat_map-map f v h (x ∷ xs) = rw (h x, flat_map-map f v h xs) refl

module _ (user : VpnUser) (client : Client) where
  reality_leaves-visible :
      (n : ResolvedNode)
      → reality_leaves user client (visible user n) ≡ reality_leaves user client n
  unfolding reality_leaves reality reality_tag
  reality_leaves-visible n =
      ap (λ (u : Option Text). map (reality n u) n.reality.server_names)
        (lookup-own user.name n.reality.uuids)

  xhttp_leaves-visible :
      (n : ResolvedNode) → xhttp_leaves user client (visible user n) ≡ xhttp_leaves user client n
  unfolding xhttp_leaves xhttp xhttp_tag xhttp_entry
  xhttp_leaves-visible n =
      ap
        (λ (u : Option Text). elim (xhttp_entry client n) [
          | none ↦ []
          | some cdn ↦ xhttp cdn n u ∷ []
        ])
        (lookup-own user.name n.reality.uuids)

module _ (client : Client) where
  abbrev as_user : Text → Role → VpnUser
  as_user name role = record { name = name; role = role }

  hy2_leaves-visible :
      (name : Text) (role : Role) (n : ResolvedNode)
      → hy2_leaves (as_user name role) client (visible (as_user name role) n)
        ≡ hy2_leaves (as_user name role) client n
  unfolding hy2_leaves hy2 hy2_tag hy2_ports hy2_password
  hy2_leaves-visible name guest n = refl
  hy2_leaves-visible name admin n =
      ap
        (λ (o : Option Text).
          map
            (hy2 n (
              name
              ++ (codes ":" ++ elim o [ none ↦ codes "undefined" | some password ↦ password ])))
            (hy2_ports n))
        (lookup-own name n.hysteria.passwords)

  auto_tags-visible :
      (name : Text) (role : Role) (n : ResolvedNode)
      → auto_tags (as_user name role) client (visible (as_user name role) n)
        ≡ auto_tags (as_user name role) client n
  unfolding auto_tags hy2_tags hy2_tag hy2_ports reality_tags reality_tag xhttp_tags xhttp_tag
      xhttp_entry
  auto_tags-visible name guest n = refl
  auto_tags-visible name admin n = refl

module _ (user : VpnUser) (client : Client) where
  node_leaves-visible :
      (n : ResolvedNode) → node_leaves user client (visible user n) ≡ node_leaves user client n
  unfolding node_leaves
  node_leaves-visible n =
      rw
        (
          reality_leaves-visible user client n,
          xhttp_leaves-visible user client n,
          hy2_leaves-visible client user.name user.role n,
        )
        refl

  host_groups-visible :
      (n : ResolvedNode) → host_groups user client (visible user n) ≡ host_groups user client n
  unfolding host_groups pick_tags auto_tag auto_tags entry_tags
  host_groups-visible n =
      ap
        (λ (ts : List Text).
          urltest (auto_tag n) ts ∷ selector n.name (auto_tag n ∷ ts) (some (auto_tag n)) ∷ [])
        (auto_tags-visible client user.name user.role n)

  single_groups-visible :
      (n : ResolvedNode) (ts : List Text)
      → single_groups user client (visible user n) ts ≡ single_groups user client n ts
  unfolding single_groups auto_tags entry_tags
  single_groups-visible n [] = refl
  single_groups-visible n (a ∷ []) = refl
  single_groups-visible n (a ∷ b ∷ more) =
      ap
        (λ (es : List Text).
          urltest (codes "auto") (a ∷ b ∷ more)
          ∷ selector (codes "entry-select") (codes "auto" ∷ es) (some (codes "auto"))
          ∷ [])
        (auto_tags-visible client user.name user.role n)

  map_names :
      (nodes : List ResolvedNode)
      → map (λ (n : ResolvedNode). n.name) (map (visible user) nodes)
        ≡ map (λ (n : ResolvedNode). n.name) nodes
  map_names [] = refl
  map_names (n ∷ nodes) = ap (λ ts. n.name ∷ ts) (map_names nodes)

  many_groups-visible :
      (nodes : List ResolvedNode)
      → many_groups user client (map (visible user) nodes) ≡ many_groups user client nodes
  unfolding many_groups
  many_groups-visible nodes =
      rw
        (
          flat_map-map (host_groups user client) (visible user) host_groups-visible nodes,
          flat_map-map (auto_tags user client) (visible user)
              (auto_tags-visible client user.name user.role) nodes,
          map_names nodes,
        )
        refl

  entry_groups-visible :
      (nodes : List ResolvedNode)
      → entry_groups user client (map (visible user) nodes) ≡ entry_groups user client nodes
  unfolding entry_groups
  entry_groups-visible [] = many_groups-visible []
  entry_groups-visible (n ∷ []) =
      rw (auto_tags-visible client user.name user.role n)
        (single_groups-visible n (auto_tags user client n))
  entry_groups-visible (n ∷ m ∷ nodes) = many_groups-visible (n ∷ m ∷ nodes)

  any-visible :
      (nodes : List ResolvedNode)
      → any (has_xhttp client) (map (visible user) nodes) ≡ any (has_xhttp client) nodes
  unfolding any has_xhttp xhttp_entry
  any-visible [] = refl
  any-visible (n ∷ nodes) = ap (λ b. has_xhttp client n || b) (any-visible nodes)

effective_exits_twice :
    (user : VpnUser) (exits : List ResolvedExit)
    → effective_exits user (effective_exits user exits) ≡ effective_exits user exits
unfolding effective_exits
effective_exits_twice user exits = elim (Bool-cases (is_admin user)) [
  | inl h ↦ rw h refl
  | inr h ↦ rw h refl
]

-- The profile is made of what the user may see: the rest can be left out of the input.
build_profile-visible :
    (user : VpnUser) (nodes : List ResolvedNode) (suffix : Text) (exits : List ResolvedExit)
    (client : Client)
    → build_profile user (map (visible user) nodes) suffix (effective_exits user exits) client
      ≡ build_profile user nodes suffix exits client
unfolding build_profile dns dns_servers outbounds route
build_profile-visible user nodes suffix exits client =
    rw
      (
        flat_map-map (node_leaves user client) (visible user) (node_leaves-visible user client)
            nodes,
        entry_groups-visible user client nodes,
        any-visible user client nodes,
        effective_exits_twice user exits,
      )
      refl

-- A profile does not depend on what its user may not see: with the nodes' names, servers, Reality
-- and XHTTP settings the same and the user's own ids the same, two profiles of a user are equal
-- whatever the other users' ids and passwords are, and for a guest whatever the nodes' hysteria
-- settings and the exits are.
pub build_profile-private :
    (user : VpnUser) (nodes nodes' : List ResolvedNode) (suffix : Text)
    (exits exits' : List ResolvedExit) (client : Client)
    → map (visible user) nodes ≡ map (visible user) nodes'
    → effective_exits user exits ≡ effective_exits user exits'
    → build_profile user nodes suffix exits client ≡ build_profile user nodes' suffix exits' client
build_profile-private user nodes nodes' suffix exits exits' client h k =
    sym (build_profile-visible user nodes suffix exits client)
    ∙ rw (h, k) (build_profile-visible user nodes' suffix exits' client)
