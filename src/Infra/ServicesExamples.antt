-- ===== src/Infra/ServicesExamples.antt =====
-- Runs of the services and the exits, and each theorem on them at a concrete input.
use jaritanet.Base.{
  ◌≡◌, ◌⊎◌, refl, true, false, Option, none, some, List, [], ◌∷◌, ◌++◌, map, Text, codes, text_eq,
  is_truthy, filter,
}
use jaritanet.Base.Decimal.{decimal}
use jaritanet.Base.Dicts.{lookup}
use jaritanet.Base.Sets.{dedup}
use jaritanet.Infra.{Deployed, whole_host, returned, thrown, no_auth_key, shared_bind}
use jaritanet.Infra.Exits.{
  ExitConf, BoundExit, resolve_exit, exit_bind, check_exits, lacks_key, resolved_exits,
}
use jaritanet.Infra.Exits.Binds.{NoClash, resolved_exits-cases}
use jaritanet.Infra.Services.{
  EstateContext, Sso, Packages, Collected, hostname_of, add, registration, register, site,
  routes_at,
}
use jaritanet.Infra.Services.Each.{
  in_turn, add_koan, add_koan_demo, add_push_relay, add_site, add_tubele, add_mcp_gateway,
  add_mariastew, add_transmet, add_slsk, add_metrics, add_profiles, create_services,
}
use jaritanet.Infra.Services.Clients.{IsSecured}
use jaritanet.Infra.Services.Secured.{create_services-IsSecured, create_services-no_provider}

abbrev signing : Text → Text → Deployed
signing name hostname = record {
  routes = whole_host name hostname ∷ [];
  oidc = some (record {
    id = name;
    name = name;
    redirect_uri = codes "https://" ++ (hostname ++ codes "/auth/callback");
  });
}

abbrev open_site : Text → Text → Deployed
open_site name hostname = record { routes = whole_host name hostname ∷ []; oidc = none }

abbrev transmet_of : Text → Option Sso → Deployed
transmet_of hostname none = open_site (codes "transmet") hostname
transmet_of hostname (some sso) = signing (codes "transmet") hostname

-- Packages as they are documented.
abbrev pub packages : Packages
packages = record {
  push_relay = λ h. open_site (codes "koan-push-relay") h;
  tubele = λ h. open_site (codes "tubele") h;
  mcp_gateway = λ h s a calls. signing (codes "mcp-gateway") h;
  mariastew = λ h sso. signing (codes "mariastew") h;
  transmet = λ h secrets sso. transmet_of h sso;
  slsk = λ h sso. signing (codes "slsk") h;
}

abbrev pub generated : Text → Text
generated name = codes "generated " ++ name

abbrev estate : EstateContext
estate = record {
  namespace = codes "jaritanet";
  hostnames =
      (codes "blit", codes "blit.cc")
      ∷ (codes "mariastew", codes "dl.blit.cc")
      ∷ (codes "metrics", codes "dash.blit.cc")
      ∷ [];
  traefik = none;
  auth_hostname = some (codes "auth.blit.cc");
  koan_apns_key = none;
  transmet = none;
  has_nodes = false;
  magicdns_suffix = none;
}

abbrev collected : Collected
collected = record {
  routes =
      whole_host (codes "blit") (codes "blit.cc")
      ∷ whole_host (codes "mariastew") (codes "dl.blit.cc")
      ∷ whole_host (codes "metrics-grafana") (codes "dash.blit.cc")
      ∷ [];
  clients =
      record {
        id = codes "mariastew";
        name = codes "mariastew";
        redirect_uri = codes "https://dl.blit.cc/auth/callback";
        secret = codes "generated mariastew-oidc";
      }
      ∷ record {
        id = codes "metrics";
        name = codes "metrics";
        redirect_uri = codes "https://dash.blit.cc/login/generic_oauth";
        secret = codes "generated metrics-oidc";
      }
      ∷ [];
  secrets = codes "mariastew-oidc" ∷ codes "metrics-oidc" ∷ [];
  aliases = [];
}

services_run : create_services packages estate generated ≡ returned collected
unfolding create_services in_turn add_koan add_koan_demo add_push_relay add_site add_tubele
    add_mcp_gateway add_mariastew add_transmet add_slsk add_metrics add_profiles hostname_of lookup
    text_eq is_truthy add registration register site routes_at
services_run = refl

create_services-IsSecured_example : IsSecured generated collected
create_services-IsSecured_example =
    create_services-IsSecured packages estate generated collected services_run

abbrev closed_estate : EstateContext
closed_estate = record estate { auth_hostname = none }

abbrev without_provider : Collected
without_provider = record {
  routes = whole_host (codes "blit") (codes "blit.cc") ∷ [];
  clients = [];
  secrets = [];
  aliases = [];
}

closed_run : create_services packages closed_estate generated ≡ returned without_provider
unfolding create_services in_turn add_koan add_koan_demo add_push_relay add_site add_tubele
    add_mcp_gateway add_mariastew add_transmet add_slsk add_metrics add_profiles hostname_of lookup
    text_eq is_truthy add registration register site routes_at
closed_run = refl

create_services-no_provider_example :
    (without_provider.clients ≡ [])
    × (without_provider.secrets ≡ [])
    × (without_provider.aliases ≡ [])
create_services-no_provider_example =
    create_services-no_provider packages closed_estate generated without_provider refl closed_run

abbrev pub lady : ExitConf
lady = record {
  method = codes "aes-256-gcm";
  name = codes "lady";
  node = codes "lady";
  node_label = codes "vpn-exit";
  port = some 20001;
  server = codes "100.64.0.1";
}

abbrev same_port : ExitConf
same_port = record lady { name = codes "other" }

resolved_exits_runs :
    (resolved_exits (lady ∷ same_port ∷ []) (some (codes "key")) ≡ thrown shared_bind)
    × (resolved_exits (lady ∷ []) (some []) ≡ thrown no_auth_key)
unfolding resolved_exits check_exits resolve_exit exit_bind dedup filter text_eq decimal is_truthy
resolved_exits_runs = (refl, refl)

abbrev bound : List BoundExit
bound = map resolve_exit (lady ∷ same_port ∷ [])

resolved_exits-cases_example :
    (NoClash bound
      × (lacks_key bound none ≡ false)
      × (resolved_exits (lady ∷ same_port ∷ []) none ≡ returned bound))
    ⊎ ((NoClash bound
          × (lacks_key bound none ≡ true)
          × (resolved_exits (lady ∷ same_port ∷ []) none ≡ thrown no_auth_key))
        ⊎ ((¬ NoClash bound) × (resolved_exits (lady ∷ same_port ∷ []) none ≡ thrown shared_bind)))
resolved_exits-cases_example = resolved_exits-cases (lady ∷ same_port ∷ []) none
