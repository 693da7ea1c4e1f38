-- ===== src/Infra/Publish/Objects.antt =====
-- The routes and the report of `publishRoutes`, packages/infra/src/services.ts.
use mathlib.Core.Path.{subst}
use mathlib.Core.List.{append-nil, append_assoc}
use jaritanet.Base.{
  ◌≡◌, refl, sym, ap, ◌∙◌, Option, none, some, List, [], ◌∷◌, ◌++◌, map, Text, codes, flat_map, In,
  here, there, Bool-cases, inl, inr,
}
use jaritanet.Base.Sets.{Unique, has, apart}
use jaritanet.Base.Dicts.{lookup, lookup-put_same, lookup-put_other}
use jaritanet.Ingress.{IngressRoute, create_ingress_route, secure_route, redirect_route}
use jaritanet.Ingress.Names.{resources, resources-Unique}
use jaritanet.Dns.{Zone}
use jaritanet.Infra.{Route}
use jaritanet.Infra.Publish.{
  PublishContext, PublishedService, Publication, zone_for, record_in, record_route, ingress_of,
  publish_route, publish_from, publish_routes, nothing_published,
}

-- Making a record changes neither the routes nor the report.
record_in_keeps :
    (ctx : PublishContext) (p : Publication) (h : Text) (o : Option Zone)
    → ((record_in ctx p h o).ingress_routes ≡ p.ingress_routes)
      × ((record_in ctx p h o).published ≡ p.published)
unfolding record_in
record_in_keeps ctx p h none = (refl, refl)
record_in_keeps ctx p h (some zone) = elim (Bool-cases (has h p.recorded)) [
  | inl old ↦ rw old (refl, refl)
  | inr new ↦ rw new (refl, refl)
]

record_route_keeps :
    (ctx : PublishContext) (p : Publication) (route : Route)
    → ((record_route ctx p route).ingress_routes ≡ p.ingress_routes)
      × ((record_route ctx p route).published ≡ p.published)
unfolding record_route
record_route_keeps ctx p route =
    record_in_keeps ctx p route.hostname (zone_for ctx.zones route.hostname)

publish_from-routes :
    (ctx : PublishContext) (p : Publication) (routes : List Route)
    → (publish_from ctx p routes).ingress_routes
      ≡ p.ingress_routes ++ flat_map (ingress_of ctx) routes
unfolding publish_from publish_route flat_map
publish_from-routes ctx p [] = sym (append-nil p.ingress_routes)
publish_from-routes ctx p (route ∷ routes) =
    publish_from-routes ctx (publish_route ctx p route) routes
    ∙ ap (λ rs. (rs ++ ingress_of ctx route) ++ flat_map (ingress_of ctx) routes)
        (record_route_keeps ctx p route).0
    ∙ append_assoc p.ingress_routes (ingress_of ctx route) (flat_map (ingress_of ctx) routes)

pub publish_routes-routes :
    (ctx : PublishContext) (routes : List Route)
    → (publish_routes ctx routes).ingress_routes ≡ flat_map (ingress_of ctx) routes
unfolding publish_routes
publish_routes-routes ctx routes = publish_from-routes ctx nothing_published routes

abbrev pub report_of : Route → PublishedService
report_of route = record { hostname = route.hostname; service = route.service ++ codes "-service" }

publish_from-kept :
    (ctx : PublishContext) (p : Publication) (routes : List Route) (service : Text)
    → ¬ In service (map (λ (r : Route). r.service) routes)
    → lookup service (publish_from ctx p routes).published ≡ lookup service p.published
unfolding publish_from publish_route
publish_from-kept ctx p [] service n = refl
publish_from-kept ctx p (route ∷ routes) service n =
    publish_from-kept ctx (publish_route ctx p route) routes service (λ m. n (there m))
    ∙ lookup-put_other route.service service (report_of route) _ (
        apart (λ e. n (subst (λ s. In s (map (λ (r : Route). r.service) (route ∷ routes))) e here)))
    ∙ ap (lookup service) (record_route_keeps ctx p route).1

-- A service is reported at the hostname of its last route.
pub publish_routes-published :
    (ctx : PublishContext) (before : List Route) (route : Route) (after : List Route)
    → ¬ In route.service (map (λ (r : Route). r.service) after)
    → lookup route.service (publish_routes ctx (before ++ route ∷ after)).published
      ≡ some (report_of route)
unfolding publish_routes publish_from publish_route
publish_routes-published ctx before route after n = go before nothing_published
  where
    go :
        (rs : List Route) (p : Publication)
        → lookup route.service (publish_from ctx p (rs ++ route ∷ after)).published
          ≡ some (report_of route)
    go [] p =
        publish_from-kept ctx (publish_route ctx p route) after route.service n
        ∙ lookup-put_same route.service (report_of route) (record_route ctx p route).published
    go (r ∷ rs) p = go rs (publish_route ctx p r)

ingress_of-resources :
    (ctx : PublishContext) (routes : List Route)
    → map (λ (r : IngressRoute). r.resource) (flat_map (ingress_of ctx) routes)
      ≡ flat_map resources (map (λ (r : Route). r.service) routes)
unfolding flat_map ingress_of create_ingress_route secure_route redirect_route
ingress_of-resources ctx [] = refl
ingress_of-resources ctx (route ∷ routes) =
    ap (λ ns. resources route.service ++ ns) (ingress_of-resources ctx routes)

-- No two routes that are created share a Pulumi name, if no two of the routes to publish are of the
-- same service.
pub publish_routes-Unique :
    (ctx : PublishContext) (routes : List Route)
    → Unique (map (λ (r : Route). r.service) routes)
    → Unique (map (λ (r : IngressRoute). r.resource) (publish_routes ctx routes).ingress_routes)
publish_routes-Unique ctx routes u =
    subst Unique
      (sym (
        ap (map (λ (r : IngressRoute). r.resource)) (publish_routes-routes ctx routes)
        ∙ ingress_of-resources ctx routes))
      (resources-Unique (map (λ (r : Route). r.service) routes) u)
