-- ===== src/Infra/Program/Runs.antt =====
-- When the program runs through, and what it has made sure of then: packages/infra/src/main.ts.
use jaritanet.Base.{
  ◌≡◌, refl, ap, ◌∙◌, inl, inr, false, Option, none, some, List, [], map, Text, In, Bool-cases,
}
use jaritanet.Base.Sets.{has, has-In}
use jaritanet.Dns.{Zone}
use jaritanet.Vpn.Users.{VpnUser, users, parse_vpn_users}
use jaritanet.Infra.{returned, ◌>>=◌}
use jaritanet.Infra.Publish.{PublishContext, zone_for}
use jaritanet.Infra.Exits.{BoundExit, resolve_exit, lacks_key, resolved_exits}
use jaritanet.Infra.Exits.Binds.{NoClash, resolved_exits-cases}
use jaritanet.Infra.Entries.{parsed, parsed_roster, or_owner, roster}
use jaritanet.Infra.Cdn.{CdnEntry, values, entry_at, fronted, create_cdn_entry}
use jaritanet.Infra.Services.{truthy, TransmetSecrets, Packages, Collected}
use jaritanet.Infra.Services.Each.{create_services}
use jaritanet.Infra.Services.Clients.{>>=-returned, returned_injective}
use jaritanet.Infra.Services.Total.{create_services-returns}
use jaritanet.Infra.Program.{
  Stack, Machines, Program, publish_context, secret_path, cdn_hostname, nodes_of, estate_of, finish,
  program,
}

module _ (pk : Packages) (stack : Stack) (m : Machines) where
  -- What each of the program's stages has come to.
  pub record Stages (p : Program) : Type 0 where
    pub users : List VpnUser
    pub exits : List BoundExit
    pub cdn : CdnEntry
    pub collected : Collected
    pub roster_returned : roster stack.vpn_users ≡ returned users
    pub exits_returned : resolved_exits stack.exits stack.auth_key ≡ returned exits
    pub cdn_returned :
        create_cdn_entry
          (publish_context pk stack m)
          stack.hostnames
          (cdn_hostname pk stack m)
          (secret_path pk stack m users)
        ≡ returned cdn
    pub services_returned :
        create_services pk (estate_of pk stack m (nodes_of pk stack m users cdn)) m.generated
        ≡ returned collected
    pub finished : finish pk stack m users exits cdn collected ≡ p

  pub program-Stages : (p : Program) → program pk stack m ≡ returned p → Stages p
  unfolding program
  program-Stages p e =
      let (us, e1, f1) = >>=-returned (roster stack.vpn_users) _ e in
      let (exits, e2, f2) = >>=-returned (resolved_exits stack.exits stack.auth_key) _ f1 in
      let (cdn, e3, f3) =
        >>=-returned
          (create_cdn_entry (publish_context pk stack m) stack.hostnames (cdn_hostname pk stack m)
            (secret_path pk stack m us))
          _ f2 in
      let (collected, e4, f4) =
        >>=-returned
          (create_services pk (estate_of pk stack m (nodes_of pk stack m us cdn)) m.generated) _
          f3 in
      record {
        users = us;
        exits = exits;
        cdn = cdn;
        collected = collected;
        roster_returned = e1;
        exits_returned = e2;
        cdn_returned = e3;
        services_returned = e4;
        finished = returned_injective f4;
      }

module _ (stack : Stack) where
  -- The roster parses, if there is one.
  abbrev pub HasRoster : Type 0
  HasRoster =
      (raw : Text)
      → truthy stack.vpn_users ≡ some raw
      → (us : List VpnUser) × (parse_vpn_users raw ≡ users us)

  -- The hostname behind the CDN is no service's, and lies in a zone.
  abbrev pub IsOwn : Text → Type 0
  IsOwn hostname =
      (¬ In hostname (values stack.hostnames))
      × ((zone : Zone) × (zone_for stack.zones hostname ≡ some zone))

roster_at-returns :
    (o : Option Text)
    → ((raw : Text) → o ≡ some raw → (us : List VpnUser) × (parse_vpn_users raw ≡ users us))
    → (us : List VpnUser) × (parsed_roster o ≡ returned us)
roster_at-returns none h = ([], refl)
roster_at-returns (some raw) h = let (us, e) = h raw refl in (us, ap parsed e)

roster-returns :
    (stack : Stack) → HasRoster stack → (us : List VpnUser) × (roster stack.vpn_users ≡ returned us)
unfolding roster
roster-returns stack h =
    let (us, e) = roster_at-returns (truthy stack.vpn_users) h in
    (_, ap (λ r. r >>= λ us. returned (or_owner us)) e)

cdn-returns :
    (stack : Stack) (ctx : PublishContext) (o path : Option Text)
    → ctx.zones ≡ stack.zones
    → ((h : Text) → o ≡ some h → IsOwn stack h)
    → (cdn : CdnEntry) × (create_cdn_entry ctx stack.hostnames o path ≡ returned cdn)
unfolding create_cdn_entry fronted
cdn-returns stack ctx none path z h = (_, refl)
cdn-returns stack ctx (some hostname) none z h = (_, refl)
cdn-returns stack ctx (some hostname) (some path) z h =
    let (n, (zone, e)) = h hostname refl in
    elim (Bool-cases (has hostname (values stack.hostnames))) [
      | inl t ↦ elim (n (has-In hostname (values stack.hostnames) t)) [ ]
      | inr f ↦ (
        entry_at ctx hostname path zone,
        rw f (
            ap (λ zs. fronted ctx hostname path (zone_for zs hostname)) z
            ∙ ap (fronted ctx hostname path) e),
      )
    ]

exits-return :
    (stack : Stack)
    → NoClash (map resolve_exit stack.exits)
    → lacks_key (map resolve_exit stack.exits) stack.auth_key ≡ false
    → resolved_exits stack.exits stack.auth_key ≡ returned (map resolve_exit stack.exits)
exits-return stack n k = elim (resolved_exits-cases stack.exits stack.auth_key) [
  | inl (_, _, e) ↦ e
  | inr (inl (_, l, _)) ↦ cc (l, k)
  | inr (inr (c, _)) ↦ elim (c n) [ ]
]

-- The program runs through, if the roster parses, no two exits share a node and a port, there is a
-- key to the tailnet where there are exits, the hostname behind the CDN is no service's and lies in
-- a zone, and tubele, and transmet without sign-on, ask for no OAuth client.
pub program-returns :
    (pk : Packages) (stack : Stack) (m : Machines)
    → HasRoster stack
    → NoClash (map resolve_exit stack.exits)
    → lacks_key (map resolve_exit stack.exits) stack.auth_key ≡ false
    → ((h : Text) → cdn_hostname pk stack m ≡ some h → IsOwn stack h)
    → ((h : Text) → (pk.tubele h).oidc ≡ none)
    → ((h : Text) (s : TransmetSecrets) → (pk.transmet h s none).oidc ≡ none)
    → (p : Program) × (program pk stack m ≡ returned p)
unfolding program
program-returns pk stack m r n k own tubele_open transmet_open =
    let (us, e1) = roster-returns stack r in
    let exits = map resolve_exit stack.exits in
    let (cdn, e3) =
      cdn-returns stack (publish_context pk stack m) (cdn_hostname pk stack m)
        (secret_path pk stack m us) refl own in
    let (collected, e4) =
      create_services-returns pk (estate_of pk stack m (nodes_of pk stack m us cdn)) m.generated
        tubele_open transmet_open in
    (finish pk stack m us exits cdn collected, rw (e1, exits-return stack n k, e3, e4) refl)
