-- ===== src/Infra/Auth.antt =====
-- The routes of the identity provider: packages/infra/src/main.ts, and the paths of
-- apps/auth/deploy/pulumi/src/auth.ts.
use jaritanet.Base.{Bool, true, false, Option, none, some, List, [], ◌∷◌, Text, codes}
use jaritanet.Ingress.{Routing, IngressRoute, create_ingress_route}
use jaritanet.Infra.{Route}
use jaritanet.Infra.Publish.{PublishContext}

-- `authRoutes()`
abbrev pub auth_routes : List Text
auth_routes =
    codes "PathPrefix(`/auth/`)"
    ∷ codes "PathPrefix(`/assets/`)"
    ∷ codes "Path(`/`)"
    ∷ codes "Path(`/healthz`)"
    ∷ []

abbrev pub registration_route : Text
registration_route = codes "Path(`/register`)"

abbrev pub registration_routing : Routing
registration_routing = record {
  paths = some (registration_route ∷ []);
  priority = some 100;
  middlewares = some (codes "auth-register-rate" ∷ []);
  name = some (codes "auth-register");
  redirect = some false;
  depends_on = none;
}

-- The route of registration, which is made at once, and the one that is still to publish.
pub record AuthEntry : Type 0 where
  pub ingress_routes : List IngressRoute
  pub routes : List Route

unfoldable pub provider_route : Text → Route
provider_route hostname = record {
  service = codes "auth";
  hostname = hostname;
  paths = some auth_routes;
  priority = some 100;
  middlewares = none;
  depends_on = some (codes "auth-register-ingress-route" ∷ []);
}

-- `authHostname && authConf.github`: by the hostname, and whether there is an OAuth app.
unfoldable pub create_auth_entry : PublishContext → Option Text → Bool → AuthEntry
unfolding create_ingress_route provider_route
create_auth_entry ctx none github = record { ingress_routes = []; routes = [] }
create_auth_entry ctx (some hostname) false = record { ingress_routes = []; routes = [] }
create_auth_entry ctx (some hostname) true = record {
  ingress_routes =
      create_ingress_route (codes "auth") hostname ctx.namespace ctx.traefik registration_routing;
  routes = provider_route hostname ∷ [];
}
