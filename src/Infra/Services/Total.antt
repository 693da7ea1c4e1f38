-- ===== src/Infra/Services/Total.antt =====
-- That the services are created without an exception, `createServices` of
-- packages/infra/src/services.ts.
use jaritanet.Base.{
  ◌≡◌, refl, ap, ◌∙◌, Option, none, some, List, [], ◌∷◌, ◌++◌, map, Text, codes, All,
}
use jaritanet.Base.Dicts.{lookup}
use jaritanet.Infra.{Deployed, OidcClient, RelyingParty, Result, returned, ◌>>=◌}
use jaritanet.Infra.Services.{
  TransmetSecrets, EstateContext, Packages, Collected, truthy, hostname_of, auth_of, register,
  registration, listed, oidc_name, add, generate, site,
}
use jaritanet.Infra.Services.Each.{
  when, add_with_secret, in_turn, nothing_collected, create_services, steps, routed, limited,
  gateway_with, mariastew_with, transmet_with, slsk_with, served, add_koan, add_koan_demo, add_site,
  add_metrics, add_profiles, add_push_relay, add_tubele, add_hydra, add_mcp_gateway, add_mariastew,
  add_transmet_at, add_transmet, add_slsk,
}

-- A step that throws in no state.
abbrev pub Returns : (Collected → Result Collected) → Type 0
Returns f = (c : Collected) → (b : Collected) × (f c ≡ returned b)

when-Returns {ℓ} :
    {A : Type ℓ} (o : Option A) (f : A → Collected → Result Collected)
    → ((a : A) → Returns (f a))
    → Returns (when o f)
when-Returns none f h c = (c, refl)
when-Returns (some a) f h c = h a c

in_turn-Returns : (fs : List (Collected → Result Collected)) → All Returns fs → Returns (in_turn fs)
unfolding in_turn
in_turn-Returns [] h c = (c, refl)
in_turn-Returns (f ∷ fs) (g, h) c =
    let (b, e) = g c in
    let (a, e2) = in_turn-Returns fs h b in (a, ap (λ r. r >>= in_turn fs) e ∙ e2)

plain-Returns : (d : Deployed) → d.oidc ≡ none → Returns (add d none)
unfolding add registration register
plain-Returns d e c = (
  _,
  ap
      (λ o. register o none >>= λ client.
        returned (record c { routes = c.routes ++ d.routes; clients = c.clients ++ listed client }))
      e,
)

register-Returns :
    (o : Option OidcClient) (secret : Text)
    → (client : Option RelyingParty) × (register o (some secret) ≡ returned client)
unfolding register
register-Returns none secret = (_, refl)
register-Returns (some oidc) secret = (_, refl)

signed-Returns :
    (generated : Text → Text) (id : Text) (deploy : Text → Deployed)
    → Returns (add_with_secret generated id deploy)
unfolding add registration
signed-Returns generated id deploy c =
    let secret = generated (oidc_name id) in
    let d = deploy secret in
    let b = generate id c in
    let (client, e) = register-Returns d.oidc secret in
    (
      _,
      ap
          (λ r. r >>= λ client.
            returned
              (record b { routes = b.routes ++ d.routes; clients = b.clients ++ listed client }))
          e,
    )

site_oidc : (name : Text) (o : Option Text) → (site name o).oidc ≡ none
unfolding site
site_oidc name o = refl

module _ (pk : Packages) (ctx : EstateContext) (generated : Text → Text)
    (tubele_open : (hostname : Text) → (pk.tubele hostname).oidc ≡ none)
    (transmet_open : (hostname : Text) (secrets : TransmetSecrets)
      → (pk.transmet hostname secrets none).oidc ≡ none) where
  site-Returns : (name : Text) → Returns (add_site ctx name)
  unfolding add_site
  site-Returns name =
      plain-Returns (site name (lookup name ctx.hostnames))
        (site_oidc name (lookup name ctx.hostnames))

  relay-Returns : Returns (add_push_relay pk ctx)
  unfolding add_push_relay
  relay-Returns = when-Returns (hostname_of ctx (codes "koan-push-relay")) _ (λ hostname.
      when-Returns (truthy ctx.koan_apns_key) _ (λ key.
        plain-Returns
          (record { routes = map (limited pk ctx) (pk.push_relay hostname).routes; oidc = none })
          refl))

  mcp_gateway-Returns : Returns (add_mcp_gateway pk ctx generated)
  unfolding add_mcp_gateway
  mcp_gateway-Returns = when-Returns (hostname_of ctx (codes "mcp-gateway")) _ (λ hostname.
      when-Returns (auth_of ctx) _ (λ auth c.
        let (b, e) =
          signed-Returns generated (codes "mcp-gateway") (gateway_with pk ctx hostname auth) c in
        (
          add_hydra pk ctx generated auth b,
          ap (λ r. r >>= λ d. returned (add_hydra pk ctx generated auth d)) e,
        )))

  mariastew-Returns : Returns (add_mariastew pk ctx generated)
  unfolding add_mariastew
  mariastew-Returns = when-Returns (hostname_of ctx (codes "mariastew")) _ (λ hostname.
      when-Returns (auth_of ctx) _ (λ auth.
        signed-Returns generated (codes "mariastew") (mariastew_with pk ctx hostname auth)))

  transmet_at-Returns :
      (hostname : Text) (secrets : TransmetSecrets) (o : Option Text)
      → Returns (add_transmet_at pk ctx generated hostname secrets o)
  transmet_at-Returns hostname secrets none =
      plain-Returns (pk.transmet hostname secrets none) (transmet_open hostname secrets)
  transmet_at-Returns hostname secrets (some auth) =
      signed-Returns generated (codes "transmet") (transmet_with pk ctx hostname secrets auth)

  transmet-Returns : Returns (add_transmet pk ctx generated)
  unfolding add_transmet
  transmet-Returns = when-Returns (hostname_of ctx (codes "transmet")) _ (λ hostname.
      when-Returns ctx.transmet _ (λ secrets. transmet_at-Returns hostname secrets (auth_of ctx)))

  slsk-Returns : Returns (add_slsk pk ctx generated)
  unfolding add_slsk
  slsk-Returns = when-Returns (hostname_of ctx (codes "slsk")) _ (λ hostname.
      when-Returns (auth_of ctx) _
        (λ auth. signed-Returns generated (codes "slsk") (slsk_with pk ctx hostname auth)))

  metrics-Returns : Returns (add_metrics ctx generated)
  unfolding add_metrics
  metrics-Returns =
      when-Returns (hostname_of ctx (codes "metrics")) _
        (λ hostname. when-Returns (auth_of ctx) _ (λ auth c. (_, refl)))

  profiles-Returns : Returns (add_profiles ctx)
  unfolding add_profiles
  profiles-Returns =
      when-Returns (hostname_of ctx (codes "singbox-profiles")) _
        (λ hostname. when-Returns (served ctx) _ (λ suffix c. (_, refl)))

  steps-Return : All Returns (steps pk ctx generated)
  unfolding add_koan add_koan_demo add_tubele
  steps-Return = (
    when-Returns (hostname_of ctx (codes "koan")) _
        (λ h. plain-Returns (routed (codes "koan") h) refl),
    (
      when-Returns (hostname_of ctx (codes "koan-demo")) _
          (λ h. plain-Returns (routed (codes "koan-demo") h) refl),
      (
        relay-Returns,
        (
          site-Returns (codes "files"),
          (
            site-Returns (codes "blit"),
            (
              site-Returns (codes "groglog"),
              (
                site-Returns (codes "koan-site"),
                (
                  site-Returns (codes "sbr-site"),
                  (
                    when-Returns (hostname_of ctx (codes "tubele")) _
                        (λ h. plain-Returns (pk.tubele h) (tubele_open h)),
                    (
                      mcp_gateway-Returns,
                      (
                        mariastew-Returns,
                        (
                          transmet-Returns,
                          (slsk-Returns, (metrics-Returns, (profiles-Returns, tt))),
                        ),
                      ),
                    ),
                  ),
                ),
              ),
            ),
          ),
        ),
      ),
    ),
  )

  -- The services are created without an exception, if tubele asks for no client and transmet for
  -- none without sign-on; the services that need a provider may ask for one or not.
  pub create_services-returns : (c : Collected) × (create_services pk ctx generated ≡ returned c)
  unfolding create_services
  create_services-returns = in_turn-Returns (steps pk ctx generated) steps-Return nothing_collected
