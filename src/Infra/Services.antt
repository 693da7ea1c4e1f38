-- ===== src/Infra/Services.antt =====
-- `createServices` of packages/infra/src/services.ts: the routes to publish and the OAuth clients to
-- register, and the addresses that it rewrites. The services of other repositories are a parameter.
pub mod Each
pub mod Clients
pub mod Steps
pub mod Secured
pub mod Total
use jaritanet.Base.{
  Bool, Option, none, some, List, [], ◌∷◌, ◌++◌, map, if◌then◌else◌, Text, codes, is_truthy,
}
use jaritanet.Base.Dicts.{Dict, lookup}
use jaritanet.Ingress.{PathAlias, Middleware, IngressRoute, create_path_alias}
use jaritanet.Infra.{
  Route, OidcClient, Deployed, RelyingParty, whole_host, Failure, no_secret, Result, returned,
  thrown, ◌>>=◌,
}

-- The password and the pull token of transmet.
pub record TransmetSecrets : Type 0 where
  pub password : Text
  pub pull_token : Text

-- What the services read of the `EstateContext`. Of the nodes of profiles, whether there are any.
pub record EstateContext : Type 0 where
  pub namespace : Text
  pub hostnames : Dict
  pub traefik : Option Text
  pub auth_hostname : Option Text
  pub koan_apns_key : Option Text
  pub transmet : Option TransmetSecrets
  pub has_nodes : Bool
  pub magicdns_suffix : Option Text

-- An issuer, with the client's secret.
pub record Sso : Type 0 where
  pub issuer : Text
  pub secret : Text

-- The packages of other repositories, by what they hand back. The gateway is given its hostname, its
-- secret, the hostname of the provider, and whether transmet calls Hydra.
pub record Packages : Type 0 where
  pub push_relay : Text → Deployed
  pub tubele : Text → Deployed
  pub mcp_gateway : Text → Text → Text → Bool → Deployed
  pub mariastew : Text → Sso → Deployed
  pub transmet : Text → TransmetSecrets → Option Sso → Deployed
  pub slsk : Text → Sso → Deployed

-- What has been collected: the two lists that are returned, the names of generated secrets, and the
-- objects that rewrite a path.
pub record Collected : Type 0 where
  pub routes : List Route
  pub clients : List RelyingParty
  pub secrets : List Text
  pub aliases : List (Middleware × IngressRoute)

-- `if (text)`, for a text that may be undefined.
abbrev pub truthy : Option Text → Option Text
truthy none = none
truthy (some s) = if is_truthy s then some s else none

unfoldable pub hostname_of : EstateContext → Text → Option Text
unfolding lookup is_truthy
hostname_of ctx name = truthy (lookup name ctx.hostnames)

abbrev pub auth_of : EstateContext → Option Text
auth_of ctx = truthy ctx.auth_hostname

-- The value of `oidcSecret(id)`, by the generator of passwords.
abbrev pub oidc_name : Text → Text
oidc_name id = id ++ codes "-oidc"

unfoldable pub register : Option OidcClient → Option Text → Result (Option RelyingParty)
register none secret = returned none
register (some oidc) none = thrown (no_secret oidc.id)
register (some oidc) (some secret) = returned (
    some (record {
      id = oidc.id;
      name = oidc.name;
      redirect_uri = oidc.redirect_uri;
      secret = secret;
    }))

unfoldable pub registration : Deployed → Option Text → Result (Option RelyingParty)
unfolding register
registration d secret = register d.oidc secret

abbrev pub listed : Option RelyingParty → List RelyingParty
listed none = []
listed (some client) = client ∷ []

-- `add(d, secret)`
unfoldable pub add : Deployed → Option Text → Collected → Result Collected
unfolding registration
add d secret c = registration d secret >>= λ client.
    returned (record c { routes = c.routes ++ d.routes; clients = c.clients ++ listed client })

-- `routes.push(route)`
abbrev pub push : Route → Collected → Collected
push route c = record c { routes = c.routes ++ route ∷ [] }

abbrev pub generate : Text → Collected → Collected
generate id c = record c { secrets = c.secrets ++ oidc_name id ∷ [] }

-- `hostname ? [{ service, hostname }] : []`
unfoldable pub routes_at : Text → Option Text → List Route
routes_at name none = []
routes_at name (some hostname) = whole_host name hostname ∷ []

-- A static site is published where it has a hostname.
unfoldable pub site : Text → Option Text → Deployed
unfolding is_truthy routes_at
site name hostname = record { routes = routes_at name (truthy hostname); oidc = none }
