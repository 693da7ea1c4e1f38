-- ===== src/Infra/Program/Entry.antt =====
-- The entry behind the CDN in the profiles, and the exits and users of a program that runs through:
-- packages/infra/src/main.ts.
use mathlib.Core.Path.{subst}
use jaritanet.Base.{
  ◌≡◌, ◌≢◌, refl, sym, ap, ◌∙◌, ◌⊎◌, inl, inr, true, false, if◌then◌else◌, Option, none, some, List,
  [], ◌∷◌, map, flat_map, Text, In, here, there, In-append_left, In-append_right,
}
use jaritanet.Base.Members.{In_of_map}
use jaritanet.Base.Dicts.{Dict}
use jaritanet.Base.Sets.{has, has-false}
use jaritanet.Dns.{Zone, create_service_record}
use jaritanet.Vpn.Users.{VpnUser}
use jaritanet.Vpn.Singbox.Data.{Hysteria, Reality, Xhttp, ResolvedNode}
use jaritanet.Infra.{Failure, service_hostname, returned, thrown}
use jaritanet.Infra.Publish.{PublishContext, zone_for}
use jaritanet.Infra.Exits.{resolve_exit, lacks_key}
use jaritanet.Infra.Exits.Binds.{NoClash, resolved_exits-cases}
use jaritanet.Infra.Entries.{
  EdgeConf, Edge, edge_node, singbox_nodes, parsed_roster, or_owner, roster,
}
use jaritanet.Infra.Cdn.{CdnEntry, no_entry, values, fronted, create_cdn_entry}
use jaritanet.Infra.Services.{Packages, truthy}
use jaritanet.Infra.Services.Clients.{>>=-returned, returned_injective}
use jaritanet.Infra.Program.{
  Stack, Machines, Program, publish_context, secret_path, cdn_hostname, nodes_of, finish, program,
  module_records,
}
use jaritanet.Infra.Program.Runs.{program-Stages}

-- A node with an entry behind the CDN is the primary, with the one that was made.
singbox_nodes-xhttp :
    (ip : Text) (r : Option Reality) (h : Option Hysteria) (x : Option Xhttp)
    (edges : List ResolvedNode) {n : ResolvedNode}
    → In n (singbox_nodes ip r h x edges)
    → (n.xhttp ≡ x) ⊎ In n edges
unfolding singbox_nodes
singbox_nodes-xhttp ip (some r) (some h) x edges here = inl refl
singbox_nodes-xhttp ip (some r) (some h) x edges (there m) = inr m
singbox_nodes-xhttp ip none h x edges m = inr m
singbox_nodes-xhttp ip (some r) none x edges m = inr m

not_returned {ℓ} : {A : Type ℓ} {e : Failure} {a : A} → ¬ (thrown e ≡ returned a)
not_returned e = cc e

xhttp_injective : {x y : Xhttp} → some x ≡ some y → x ≡ y
xhttp_injective e = cc

not_made : (cdn : CdnEntry) (x : Xhttp) → returned no_entry ≡ returned cdn → ¬ (cdn.xhttp ≡ some x)
not_made cdn x e q = cc (ap (λ (c : CdnEntry). c.xhttp) (returned_injective e) ∙ q)

module _ (ctx : PublishContext) where
  -- What an entry behind the CDN is made with.
  abbrev pub IsFronted : Dict → CdnEntry → Xhttp → Type 0
  IsFronted hostnames cdn x =
      (¬ In x.host (values hostnames))
      × ((zone : Zone) × (zone_for ctx.zones x.host ≡ some zone)
          × In (create_service_record ctx.dns_target zone x.host true) cdn.records)

  fronted-IsFronted :
      (hostnames : Dict) (hostname path : Text) (o : Option Zone) (cdn : CdnEntry) (x : Xhttp)
      → (¬ In hostname (values hostnames))
      → zone_for ctx.zones hostname ≡ o
      → fronted ctx hostname path o ≡ returned cdn
      → cdn.xhttp ≡ some x
      → IsFronted hostnames cdn x
  unfolding fronted
  fronted-IsFronted hostnames hostname path none cdn x n z e q = elim (not_returned e) [ ]
  fronted-IsFronted hostnames hostname path (some zone) cdn x n z e q =
      let made = returned_injective e in
      let own : Xhttp = record { host = hostname; path = path } in
      subst (IsFronted hostnames cdn) {x = own}
        (xhttp_injective (ap (λ (c : CdnEntry). c.xhttp) made ∙ q))
        (
          n,
          (
            zone,
            z,
            subst
                (λ (c : CdnEntry).
                  In (create_service_record ctx.dns_target zone hostname true) c.records)
                made here,
          ),
        )

  create_cdn_entry-IsFronted :
      (hostnames : Dict) (o path : Option Text) (cdn : CdnEntry) (x : Xhttp)
      → create_cdn_entry ctx hostnames o path ≡ returned cdn
      → cdn.xhttp ≡ some x
      → IsFronted hostnames cdn x
  unfolding create_cdn_entry
  create_cdn_entry-IsFronted hostnames none path cdn x e q = elim (not_made cdn x e q) [ ]
  create_cdn_entry-IsFronted hostnames (some hostname) none cdn x e q =
      elim (not_made cdn x e q) [ ]
  create_cdn_entry-IsFronted hostnames (some hostname) (some path) cdn x e q =
      (elim (has hostname (values hostnames))
          as (λ b.
            has hostname (values hostnames) ≡ b
            → (if b
                then thrown (service_hostname hostname)
                else fronted ctx hostname path (zone_for ctx.zones hostname))
              ≡ returned cdn
            → IsFronted hostnames cdn x) [
              | true ↦ λ t r. elim (not_returned r) [ ]
              | false ↦ λ f r.
                  fronted-IsFronted hostnames hostname path (zone_for ctx.zones hostname) cdn x
                    (has-false hostname (values hostnames) f) refl r q
            ])
        refl e

edge_plain : (conf : EdgeConf) (edge : Edge) → (edge_node conf edge).xhttp ≡ none
unfolding edge_node
edge_plain conf edge = refl

or_owner≢[] : (us : List VpnUser) → or_owner us ≢ []
or_owner≢[] [] e = cc e
or_owner≢[] (u ∷ us) e = cc e

roster_users : (o : Option Text) (us : List VpnUser) → roster o ≡ returned us → us ≢ []
unfolding roster
roster_users o us e n =
    let (vs, _, f) = >>=-returned (parsed_roster (truthy o)) (λ ws. returned (or_owner ws)) e in
    or_owner≢[] vs (returned_injective f ∙ n)

module _ (pk : Packages) (stack : Stack) (m : Machines) where
  -- No edge has an entry behind the CDN.
  edges-xhttp :
      (us : List VpnUser) (n : ResolvedNode) (x : Xhttp)
      → In n (map (λ conf. edge_node conf (m.edge conf us)) stack.edges)
      → ¬ (n.xhttp ≡ some x)
  edges-xhttp us n x k q =
      let (conf, _, e) = In_of_map (λ conf. edge_node conf (m.edge conf us)) stack.edges k in
      cc (sym (edge_plain conf (m.edge conf us)) ∙ ap (λ (r : ResolvedNode). r.xhttp) e ∙ q)

  nodes_of-xhttp :
      (us : List VpnUser) (cdn : CdnEntry) (n : ResolvedNode) (x : Xhttp)
      → In n (nodes_of pk stack m us cdn)
      → n.xhttp ≡ some x
      → cdn.xhttp ≡ some x
  nodes_of-xhttp us cdn n x k q = elim (singbox_nodes-xhttp m.vps_ip _ _ cdn.xhttp _ k) [
    | inl e ↦ sym e ∙ q
    | inr l ↦ elim (edges-xhttp us n x l q) [ ]
  ]

  -- An entry behind the CDN that a profile's node has is at a name of its own: no service is at its
  -- hostname, which lies in a zone and has a proxied record, if the program runs through.
  pub program-xhttp :
      (p : Program)
      → program pk stack m ≡ returned p
      → (n : ResolvedNode) (x : Xhttp) → In n p.nodes
      → n.xhttp ≡ some x
      → (¬ In x.host (values stack.hostnames))
        × ((zone : Zone) × (zone_for stack.zones x.host ≡ some zone)
            × In (create_service_record m.vps_ip zone x.host true) p.records)
  unfolding finish
  program-xhttp p e n x k q =
      let s = program-Stages pk stack m p e in
      let f = sym s.finished in
      let made = nodes_of-xhttp s.users s.cdn n x (subst (λ (r : Program). In n r.nodes) f k) q in
      let (own, (zone, z, l)) =
        create_cdn_entry-IsFronted (publish_context pk stack m) stack.hostnames
          (cdn_hostname pk stack m) (secret_path pk stack m s.users) s.cdn x s.cdn_returned made in
      let record_made = create_service_record m.vps_ip zone x.host true in
      (
        own,
        (
          zone,
          z,
          subst (λ (r : Program). In record_made r.records) s.finished
              (In-append_right _ (
                In-append_right (flat_map (module_records stack) stack.zones)
                  (In-append_left _ l))),
        ),
      )

  -- A program that runs through has a user, and its exits can be bound and reached: no two share a
  -- node and a port, and where there is one, there is a key to the tailnet.
  pub program-safe :
      (p : Program)
      → program pk stack m ≡ returned p
      → (p.users ≢ [])
        × NoClash (map resolve_exit stack.exits)
        × (lacks_key (map resolve_exit stack.exits) stack.auth_key ≡ false)
  unfolding finish
  program-safe p e =
      let s = program-Stages pk stack m p e in
      let some_user : p.users ≢ [] = λ n.
        roster_users stack.vpn_users s.users s.roster_returned
          (ap (λ (r : Program). r.users) s.finished ∙ n) in
      elim (resolved_exits-cases stack.exits stack.auth_key) [
        | inl (n, k, _) ↦ (some_user, n, k)
        | inr (inl (_, _, t)) ↦ elim (not_returned (sym t ∙ s.exits_returned)) [ ]
        | inr (inr (_, t)) ↦ elim (not_returned (sym t ∙ s.exits_returned)) [ ]
      ]
