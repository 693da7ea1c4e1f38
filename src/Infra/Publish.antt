-- ===== src/Infra/Publish.antt =====
-- `zoneFor` and `publishRoutes` of packages/infra/src/services.ts.

pub mod Records
pub mod Objects
use jaritanet.Base.{
  Bool, true, false, not, ◌&&◌, Option, none, some, List, [], ◌∷◌, ◌++◌, if◌then◌else◌, Text, codes,
  split, join, text_eq, find?,
}
use jaritanet.Base.Sets.{has}
use jaritanet.Base.Dicts.{put}
use jaritanet.Dns.{Zone, DnsRecord, create_service_record, is_dot}
use jaritanet.Ingress.{Routing, IngressRoute, create_ingress_route}
use jaritanet.Infra.{Route}

-- `parts.slice(-2)`
unfoldable pub last_two : List Text → List Text
last_two [] = []
last_two (a ∷ []) = a ∷ []
last_two (a ∷ b ∷ []) = a ∷ b ∷ []
last_two (a ∷ b ∷ c ∷ more) = last_two (b ∷ c ∷ more)

unfoldable pub zone_name : Text → Text
unfolding last_two join split
zone_name hostname = join (codes ".") (last_two (split is_dot hostname))

unfoldable pub zone_for : List Zone → Text → Option Zone
unfolding find? zone_name text_eq
zone_for zones hostname = find? (λ (zone : Zone). text_eq zone.name (zone_name hostname)) zones

-- What publishing reads of the `EstateContext`.
pub record PublishContext : Type 0 where
  pub zones : List Zone
  pub namespace : Text
  pub dns_target : Text
  pub traefik : Option Text

pub record PublishedService : Type 0 where
  pub hostname : Text
  pub service : Text

-- The state of the loop: the set of hostnames with a record, the resources created so far, and the
-- services to report.
pub record Publication : Type 0 where
  pub recorded : List Text
  pub records : List DnsRecord
  pub ingress_routes : List IngressRoute
  pub published : List (Text × PublishedService)

abbrev pub routing_of : Route → Routing
routing_of route = record {
  paths = route.paths;
  priority = route.priority;
  middlewares = route.middlewares;
  name = none;
  redirect = none;
  depends_on = route.depends_on;
}

unfoldable pub ingress_of : PublishContext → Route → List IngressRoute
unfolding create_ingress_route
ingress_of ctx route =
    create_ingress_route route.service route.hostname ctx.namespace ctx.traefik (routing_of route)

-- `zone && !recorded.has(hostname)`: the record of a hostname that lies in a zone and has none yet.
unfoldable pub record_in : PublishContext → Publication → Text → Option Zone → Publication
unfolding has create_service_record
record_in ctx p hostname none = p
record_in ctx p hostname (some zone) = if has hostname p.recorded then p else record {
  recorded = p.recorded ++ hostname ∷ [];
  records = p.records ++ create_service_record ctx.dns_target zone hostname false ∷ [];
  ingress_routes = p.ingress_routes;
  published = p.published;
}

unfoldable pub record_route : PublishContext → Publication → Route → Publication
unfolding zone_for record_in
record_route ctx p route = record_in ctx p route.hostname (zone_for ctx.zones route.hostname)

-- The body of the loop.
unfoldable pub publish_route : PublishContext → Publication → Route → Publication
unfolding record_route ingress_of put
publish_route ctx p route =
    let q = record_route ctx p route in
    record {
      recorded = q.recorded;
      records = q.records;
      ingress_routes = q.ingress_routes ++ ingress_of ctx route;
      published =
          put route.service
            (record { hostname = route.hostname; service = route.service ++ codes "-service" })
            q.published;
    }

unfoldable pub publish_from : PublishContext → Publication → List Route → Publication
unfolding publish_route
publish_from ctx p [] = p
publish_from ctx p (route ∷ routes) = publish_from ctx (publish_route ctx p route) routes

abbrev pub nothing_published : Publication
nothing_published = record { recorded = []; records = []; ingress_routes = []; published = [] }

unfoldable pub publish_routes : PublishContext → List Route → Publication
unfolding publish_from
publish_routes ctx routes = publish_from ctx nothing_published routes
