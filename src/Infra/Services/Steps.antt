-- ===== src/Infra/Services/Steps.antt =====
-- What all services preserve, `createServices` of packages/infra/src/services.ts.
use mathlib.Core.Path.{subst}
use jaritanet.Base.{◌≡◌, refl, Option, none, some, [], ◌∷◌, ◌++◌, map, Text, codes, All}
use jaritanet.Base.Dicts.{lookup}
use jaritanet.Infra.{Route, Deployed, whole_host, returned}
use jaritanet.Infra.Services.{
  TransmetSecrets, EstateContext, Packages, Collected, truthy, hostname_of, auth_of, add, generate,
  push, site,
}
use jaritanet.Infra.Services.Each.{
  add_with_secret, nothing_collected, create_services, steps, routed, limited, gateway_with,
  mariastew_with, transmet_with, slsk_with, grafana_client, served, add_koan, add_koan_demo,
  add_site, add_metrics, add_profiles, add_push_relay, add_tubele, add_hydra, add_mcp_gateway,
  add_mariastew, add_transmet_at, add_transmet, add_slsk,
}
use jaritanet.Infra.Services.Clients.{
  >>=-returned, returned_injective, Preserves, when-Preserves, in_turn-Preserves,
}

module _ (pk : Packages) (ctx : EstateContext) (generated : Text → Text) where
  -- What the metrics add to the collection.
  abbrev pub with_grafana : Text → Collected → Collected
  with_grafana hostname c =
      let d = push (whole_host (codes "metrics-grafana") hostname) (generate (codes "metrics") c) in
      record d { clients = d.clients ++ grafana_client ctx generated hostname ∷ [] }

  -- A property that the few ways to add to a collection preserve; those that need a provider may
  -- rely on there being one.
  pub record IsClosed (P : Collected → Type 0) : Type 0 where
    pub pushed : (route : Route) (c : Collected) → P c → P (push route c)
    pub plain : (d : Deployed) → Preserves P (add d none)
    pub signed :
        (auth : Text)
        → auth_of ctx ≡ some auth
        → (id : Text) (deploy : Text → Deployed) → Preserves P (add_with_secret generated id deploy)
    pub hydra :
        (auth : Text)
        → auth_of ctx ≡ some auth
        → (c : Collected) → P c
        → P (add_hydra pk ctx generated auth c)
    pub grafana :
        (auth : Text)
        → auth_of ctx ≡ some auth
        → (hostname : Text) (c : Collected) → P c
        → P (with_grafana hostname c)

  module _ (P : Collected → Type 0) (k : IsClosed P) where
    metrics-Preserves : Preserves P (add_metrics ctx generated)
    unfolding add_metrics
    metrics-Preserves = when-Preserves P (hostname_of ctx (codes "metrics")) _ (λ hostname _.
        when-Preserves P (auth_of ctx) _
          (λ auth o c d p e. subst P (returned_injective e) (k.grafana auth o hostname c p)))

    profiles-Preserves : Preserves P (add_profiles ctx)
    unfolding add_profiles
    profiles-Preserves =
        when-Preserves P (hostname_of ctx (codes "singbox-profiles")) _ (λ hostname _.
          when-Preserves P (served ctx) _ (λ suffix _ c d p e.
            subst P (returned_injective e)
              (k.pushed (whole_host (codes "singbox-profiles") hostname) c p)))

    mcp_gateway-Preserves : Preserves P (add_mcp_gateway pk ctx generated)
    unfolding add_mcp_gateway
    mcp_gateway-Preserves =
        when-Preserves P (hostname_of ctx (codes "mcp-gateway")) _ (λ hostname _.
          when-Preserves P (auth_of ctx) _ (λ auth o c d p e.
            let (b, e1, e2) =
              >>=-returned _ (λ b. returned (add_hydra pk ctx generated auth b)) e in
            subst P (returned_injective e2) (
              k.hydra auth o b (
                k.signed auth o (codes "mcp-gateway") (gateway_with pk ctx hostname auth) c b p
                  e1))))

    transmet_at-Preserves :
        (hostname : Text) (secrets : TransmetSecrets) (o : Option Text)
        → auth_of ctx ≡ o
        → Preserves P (add_transmet_at pk ctx generated hostname secrets o)
    transmet_at-Preserves hostname secrets none e = k.plain (pk.transmet hostname secrets none)
    transmet_at-Preserves hostname secrets (some auth) e =
        k.signed auth e (codes "transmet") (transmet_with pk ctx hostname secrets auth)

    transmet-Preserves : Preserves P (add_transmet pk ctx generated)
    unfolding add_transmet
    transmet-Preserves = when-Preserves P (hostname_of ctx (codes "transmet")) _ (λ hostname _.
        when-Preserves P ctx.transmet _
          (λ secrets _. transmet_at-Preserves hostname secrets (auth_of ctx) refl))

    relay-Preserves : Preserves P (add_push_relay pk ctx)
    unfolding add_push_relay
    relay-Preserves = when-Preserves P (hostname_of ctx (codes "koan-push-relay")) _ (λ hostname _.
        when-Preserves P (truthy ctx.koan_apns_key) _ (λ key _.
          k.plain (record {
            routes = map (limited pk ctx) (pk.push_relay hostname).routes;
            oidc = none;
          })))

    site-Preserves : (name : Text) → Preserves P (add_site ctx name)
    unfolding add_site
    site-Preserves name = k.plain (site name (lookup name ctx.hostnames))

    mariastew-Preserves : Preserves P (add_mariastew pk ctx generated)
    unfolding add_mariastew
    mariastew-Preserves = when-Preserves P (hostname_of ctx (codes "mariastew")) _ (λ hostname _.
        when-Preserves P (auth_of ctx) _
          (λ auth o. k.signed auth o (codes "mariastew") (mariastew_with pk ctx hostname auth)))

    slsk-Preserves : Preserves P (add_slsk pk ctx generated)
    unfolding add_slsk
    slsk-Preserves = when-Preserves P (hostname_of ctx (codes "slsk")) _ (λ hostname _.
        when-Preserves P (auth_of ctx) _
          (λ auth o. k.signed auth o (codes "slsk") (slsk_with pk ctx hostname auth)))

    steps-Preserve : All (Preserves P) (steps pk ctx generated)
    unfolding add_koan add_koan_demo add_tubele
    steps-Preserve = (
      when-Preserves P (hostname_of ctx (codes "koan")) _
          (λ h _. k.plain (routed (codes "koan") h)),
      (
        when-Preserves P (hostname_of ctx (codes "koan-demo")) _
            (λ h _. k.plain (routed (codes "koan-demo") h)),
        (
          relay-Preserves,
          (
            site-Preserves (codes "files"),
            (
              site-Preserves (codes "blit"),
              (
                site-Preserves (codes "groglog"),
                (
                  site-Preserves (codes "koan-site"),
                  (
                    site-Preserves (codes "sbr-site"),
                    (
                      when-Preserves P (hostname_of ctx (codes "tubele")) _
                          (λ h _. k.plain (pk.tubele h)),
                      (
                        mcp_gateway-Preserves,
                        (
                          mariastew-Preserves,
                          (
                            transmet-Preserves,
                            (slsk-Preserves, (metrics-Preserves, (profiles-Preserves, tt))),
                          ),
                        ),
                      ),
                    ),
                  ),
                ),
              ),
            ),
          ),
        ),
      ),
    )

    pub create_services-Preserves :
        (c : Collected) → create_services pk ctx generated ≡ returned c → P nothing_collected → P c
    unfolding create_services
    create_services-Preserves c e p =
        in_turn-Preserves P (steps pk ctx generated) steps-Preserve nothing_collected c p e
