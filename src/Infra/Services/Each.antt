-- ===== src/Infra/Services/Each.antt =====
-- The services one by one, `createServices` of packages/infra/src/services.ts, and all of them. What
-- they run in the cluster beside their routes is left out.
use jaritanet.Base.{
  Bool, true, false, ◌&&◌, Option, none, some, List, [], ◌∷◌, ◌++◌, map, if◌then◌else◌, Text, codes,
}
use jaritanet.Base.Dicts.{lookup}
use jaritanet.Ingress.{create_path_alias}
use jaritanet.Infra.{Route, Deployed, RelyingParty, whole_host, Result, returned, ◌>>=◌}
use jaritanet.Infra.Services.{
  TransmetSecrets, EstateContext, Packages, Collected, truthy, hostname_of, auth_of, oidc_name, add,
  push, generate, site,
}

-- A deployment with one route and no client.
abbrev pub routed : Text → Text → Deployed
routed name hostname = record { routes = whole_host name hostname ∷ []; oidc = none }

abbrev https : Text → Text
https hostname = codes "https://" ++ hostname

abbrev is_some : Option Text → Bool
is_some none = false
is_some (some _) = true

-- `if (value) { … }`, for what the condition has made sure of.
abbrev pub when {ℓ} :
    {A : Type ℓ} → Option A → (A → Collected → Result Collected) → Collected → Result Collected
when none f c = returned c
when (some a) f c = f a c

-- What is made for a service that signs people in: its secret, and then the rest with it.
abbrev pub add_with_secret : (Text → Text) → Text → (Text → Deployed) → Collected → Result Collected
add_with_secret generated id deploy c =
    let secret = generated (oidc_name id) in add (deploy secret) (some secret) (generate id c)

module _ (ctx : EstateContext) where
  unfoldable pub add_koan : Collected → Result Collected
  unfolding hostname_of add
  add_koan =
      when (hostname_of ctx (codes "koan")) (λ hostname. add (routed (codes "koan") hostname) none)

  unfoldable pub add_koan_demo : Collected → Result Collected
  unfolding hostname_of add
  add_koan_demo =
      when (hostname_of ctx (codes "koan-demo"))
        (λ hostname. add (routed (codes "koan-demo") hostname) none)

  unfoldable pub add_site : Text → Collected → Result Collected
  unfolding site add lookup
  add_site name = add (site name (lookup name ctx.hostnames)) none

  -- Grafana's client; its callback path is fixed by Grafana.
  abbrev pub grafana_client : (Text → Text) → Text → RelyingParty
  grafana_client generated hostname = record {
    id = codes "metrics";
    name = codes "metrics";
    redirect_uri = https hostname ++ codes "/login/generic_oauth";
    secret = generated (oidc_name (codes "metrics"));
  }

  unfoldable pub add_metrics : (Text → Text) → Collected → Result Collected
  unfolding hostname_of
  add_metrics generated = when (hostname_of ctx (codes "metrics")) (λ hostname.
      when (auth_of ctx) (λ auth c.
        let d =
          push (whole_host (codes "metrics-grafana") hostname) (generate (codes "metrics") c) in
        returned (record d { clients = d.clients ++ grafana_client generated hostname ∷ [] })))

  -- The suffix, where there are nodes for the profiles.
  abbrev pub served : Option Text
  served = if ctx.has_nodes then truthy ctx.magicdns_suffix else none

  unfoldable pub add_profiles : Collected → Result Collected
  unfolding hostname_of
  add_profiles = when (hostname_of ctx (codes "singbox-profiles")) (λ hostname.
      when served (λ suffix c. returned (push (whole_host (codes "singbox-profiles") hostname) c)))

module _ (pk : Packages) (ctx : EstateContext) where
  -- A route with the two middlewares that are made for the relay.
  abbrev pub limited : Route → Route
  limited route = record route {
    middlewares = some (codes "koan-push-relay-rate" ∷ codes "koan-push-relay-in-flight" ∷ []);
  }

  unfoldable pub add_push_relay : Collected → Result Collected
  unfolding hostname_of add
  add_push_relay = when (hostname_of ctx (codes "koan-push-relay")) (λ hostname.
      when (truthy ctx.koan_apns_key) (λ key.
        add (record { routes = map limited (pk.push_relay hostname).routes; oidc = none }) none))

  unfoldable pub add_tubele : Collected → Result Collected
  unfolding hostname_of add
  add_tubele = when (hostname_of ctx (codes "tubele")) (λ hostname. add (pk.tubele hostname) none)

  -- Whether transmet is deployed with sign-on, so that it calls Hydra directly.
  abbrev pub transmet_calls : Bool
  transmet_calls = elim ctx.transmet [
    | none ↦ false
    | some _ ↦ is_some (hostname_of ctx (codes "transmet")) && is_some (auth_of ctx)
  ]

  -- The services that sign people in, by the secret that they are handed.
  abbrev pub gateway_with : Text → Text → Text → Deployed
  gateway_with hostname auth secret = pk.mcp_gateway hostname secret auth transmet_calls

  abbrev pub mariastew_with : Text → Text → Text → Deployed
  mariastew_with hostname auth secret =
      pk.mariastew hostname (record { issuer = https auth; secret = secret })

  abbrev pub transmet_with : Text → TransmetSecrets → Text → Text → Deployed
  transmet_with hostname secrets auth secret =
      pk.transmet hostname secrets (some (record { issuer = https auth; secret = secret }))

  abbrev pub slsk_with : Text → Text → Text → Deployed
  slsk_with hostname auth secret =
      pk.slsk hostname (record { issuer = https auth; secret = secret })

  module _ (generated : Text → Text) where
    -- Hydra, on the provider's hostname, with its metadata under another path.
    abbrev pub add_hydra : Text → Collected → Collected
    add_hydra auth c =
        let d = push (whole_host (codes "mcp-gateway-hydra") auth) c in
        record d {
          aliases =
              d.aliases
              ++ create_path_alias (codes "oauth-as-metadata") (record {
                hostname = auth;
                from = codes "/.well-known/oauth-authorization-server";
                to = codes "/.well-known/openid-configuration";
                service = codes "mcp-gateway-hydra-service";
                namespace = ctx.namespace;
                traefik = ctx.traefik;
              })
                ∷ [];
        }

    unfoldable pub add_mcp_gateway : Collected → Result Collected
    unfolding hostname_of add create_path_alias
    add_mcp_gateway = when (hostname_of ctx (codes "mcp-gateway")) (λ hostname.
        when (auth_of ctx) (λ auth c.
          add_with_secret generated (codes "mcp-gateway") (gateway_with hostname auth) c >>= λ d.
          returned (add_hydra auth d)))

    unfoldable pub add_mariastew : Collected → Result Collected
    unfolding hostname_of add
    add_mariastew = when (hostname_of ctx (codes "mariastew")) (λ hostname.
        when (auth_of ctx)
          (λ auth. add_with_secret generated (codes "mariastew") (mariastew_with hostname auth)))

    -- With a provider or without.
    abbrev pub add_transmet_at : Text → TransmetSecrets → Option Text → Collected → Result Collected
    add_transmet_at hostname secrets none = add (pk.transmet hostname secrets none) none
    add_transmet_at hostname secrets (some auth) =
        add_with_secret generated (codes "transmet") (transmet_with hostname secrets auth)

    unfoldable pub add_transmet : Collected → Result Collected
    unfolding hostname_of add
    add_transmet =
        when (hostname_of ctx (codes "transmet")) (λ hostname.
          when ctx.transmet (λ secrets. add_transmet_at hostname secrets (auth_of ctx)))

    unfoldable pub add_slsk : Collected → Result Collected
    unfolding hostname_of add
    add_slsk = when (hostname_of ctx (codes "slsk")) (λ hostname.
        when (auth_of ctx)
          (λ auth. add_with_secret generated (codes "slsk") (slsk_with hostname auth)))

    -- All services, in the order of the program.
    abbrev pub steps : List (Collected → Result Collected)
    steps =
        add_koan ctx
        ∷ add_koan_demo ctx
        ∷ add_push_relay
        ∷ add_site ctx (codes "files")
        ∷ add_site ctx (codes "blit")
        ∷ add_site ctx (codes "groglog")
        ∷ add_site ctx (codes "koan-site")
        ∷ add_site ctx (codes "sbr-site")
        ∷ add_tubele
        ∷ add_mcp_gateway
        ∷ add_mariastew
        ∷ add_transmet
        ∷ add_slsk
        ∷ add_metrics ctx generated
        ∷ add_profiles ctx
        ∷ []

-- One after the other, until one throws.
unfoldable pub in_turn : List (Collected → Result Collected) → Collected → Result Collected
in_turn [] c = returned c
in_turn (f ∷ fs) c = f c >>= in_turn fs

abbrev pub nothing_collected : Collected
nothing_collected = record { routes = []; clients = []; secrets = []; aliases = [] }

unfoldable pub create_services : Packages → EstateContext → (Text → Text) → Result Collected
unfolding in_turn
create_services pk ctx generated = in_turn (steps pk ctx generated) nothing_collected
