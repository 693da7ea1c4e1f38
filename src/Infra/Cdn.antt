-- ===== src/Infra/Cdn.antt =====
-- The entry that a CDN fronts, packages/infra/src/main.ts.
use jaritanet.Base.{true, Option, none, some, List, [], ◌∷◌, ◌++◌, map, if◌then◌else◌, Text, codes}
use jaritanet.Base.Dicts.{Dict}
use jaritanet.Base.Sets.{has}
use jaritanet.Dns.{Zone, DnsRecord, create_service_record}
use jaritanet.Ingress.{Routing, IngressRoute, create_ingress_route}
use jaritanet.Vpn.Singbox.Data.{Xhttp}
use jaritanet.Infra.{Result, returned, thrown, service_hostname, no_zone}
use jaritanet.Infra.Publish.{PublishContext, zone_for}

-- What the entry consists of; without one, nothing is made.
pub record CdnEntry : Type 0 where
  pub records : List DnsRecord
  pub ingress_routes : List IngressRoute
  pub xhttp : Option Xhttp

abbrev pub no_entry : CdnEntry
no_entry = record { records = []; ingress_routes = []; xhttp = none }

-- `Object.values(hostnames)`
abbrev pub values : Dict → List Text
values hostnames = map (λ (entry : Text × Text). entry.1) hostnames

abbrev pub path_routing : Text → Routing
path_routing path = record {
  paths = some ((codes "PathPrefix(`" ++ (path ++ codes "`)")) ∷ []);
  priority = none;
  middlewares = none;
  name = none;
  redirect = none;
  depends_on = none;
}

abbrev pub entry_at : PublishContext → Text → Text → Zone → CdnEntry
entry_at ctx hostname path zone = record {
  records = create_service_record ctx.dns_target zone hostname true ∷ [];
  ingress_routes =
      create_ingress_route (codes "xray-xhttp") hostname ctx.namespace ctx.traefik
        (path_routing path);
  xhttp = some (record { host = hostname; path = path });
}

-- The entry at a hostname of its own that lies in a zone.
unfoldable pub fronted : PublishContext → Text → Text → Option Zone → Result CdnEntry
unfolding create_service_record create_ingress_route
fronted ctx hostname path none = thrown (no_zone hostname)
fronted ctx hostname path (some zone) = returned (entry_at ctx hostname path zone)

-- By the hostname of `xray.xhttp` and the secret path, both of which there are or there is no entry.
unfoldable pub create_cdn_entry :
    PublishContext → Dict → Option Text → Option Text → Result CdnEntry
unfolding has zone_for fronted
create_cdn_entry ctx hostnames none path = returned no_entry
create_cdn_entry ctx hostnames (some hostname) none = returned no_entry
create_cdn_entry ctx hostnames (some hostname) (some path) =
    if has hostname (values hostnames)
    then thrown (service_hostname hostname)
    else fronted ctx hostname path (zone_for ctx.zones hostname)
