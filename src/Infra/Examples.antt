-- ===== src/Infra/Examples.antt =====
-- Runs of the program of the infrastructure, and each theorem on it at a concrete input.
use jaritanet.Base.{
  ◌≡◌, ◌↔◌, inl, inr, refl, some, List, [], ◌∷◌, map, flat_map, Text, codes, In, here, there,
  text_eq, split, join, find?, any, filter,
}
use mathlib.Core.Path.{subst}
use jaritanet.Base.Members.{In_uncons}
use jaritanet.Base.Decimal.{decimal, digits_value}
use jaritanet.Base.Sets.{dedup, has, has-false, Unique}
use jaritanet.Base.Sorted.{to_sorted, insert, text_ltb}
use jaritanet.Dns.{Zone, create_service_record}
use jaritanet.Ingress.{IngressRoute, route_match}
use jaritanet.Infra.{Route, whole_host}
use jaritanet.Infra.Publish.{
  PublishContext, zone_for, zone_name, last_two, record_in, record_route, publish_route,
  publish_from, publish_routes,
}
use jaritanet.Infra.Publish.Records.{records_of, publish_routes-records}
use jaritanet.Infra.Publish.Objects.{publish_routes-Unique}
use jaritanet.Infra.TailnetPolicy.{
  TailnetPolicyArgs, PolicyTest, first_host, number, up_one, written, fleet_tags,
  build_tailnet_policy,
}
use jaritanet.Infra.TailnetPolicy.Fleet.{with_tags, build_tailnet_policy-tags}

abbrev zones : List Zone
zones =
    record { modules = codes "fastmail" ∷ []; name = codes "blit.cc"; zone_id = codes "z1" }
    ∷ record { modules = codes "bluesky" ∷ []; name = codes "koan.rocks"; zone_id = codes "z2" }
    ∷ []

abbrev publishing : PublishContext
publishing = record {
  zones = zones;
  namespace = codes "jaritanet";
  dns_target = codes "192.0.2.1";
  traefik = some (codes "traefik");
}

abbrev hydra : Route
hydra = whole_host (codes "mcp-gateway-hydra") (codes "auth.blit.cc")

abbrev provider : Route
provider = record hydra {
  service = codes "auth";
  paths = some (codes "PathPrefix(`/auth/`)" ∷ codes "Path(`/`)" ∷ []);
  priority = some 100;
}

abbrev abroad : Route
abroad = whole_host (codes "site") (codes "example.com")

abbrev some_routes : List Route
some_routes = hydra ∷ provider ∷ abroad ∷ []

-- Two routes of one host make one record, and a host in no zone makes none.
publish_runs :
    (map (λ r. r.resource) (publish_routes publishing some_routes).records
      ≡ codes "auth.blit.cc-a-record" ∷ [])
    × (route_match provider.hostname provider.paths
        ≡ codes "Host(`auth.blit.cc`) && (PathPrefix(`/auth/`) || Path(`/`))")
    × (zone_name (codes "a.example.co.uk") ≡ codes "co.uk")
unfolding publish_routes publish_from publish_route record_route record_in zone_for zone_name
    last_two find? text_eq has any split join create_service_record route_match
publish_runs = (refl, refl, refl)

publish_routes-records_example :
    (publish_routes publishing some_routes).records
    ≡ flat_map (records_of publishing) (dedup (map (λ (r : Route). r.hostname) some_routes))
publish_routes-records_example = publish_routes-records publishing some_routes

apart_services : Unique (map (λ (r : Route). r.service) some_routes)
unfolding has any text_eq
apart_services = (
  has-false (codes "mcp-gateway-hydra") (codes "auth" ∷ codes "site" ∷ []) refl,
  (has-false (codes "auth") (codes "site" ∷ []) refl, (has-false (codes "site") [] refl, tt)),
)

publish_routes-Unique_example :
    Unique (
      map (λ (r : IngressRoute). r.resource) (publish_routes publishing some_routes).ingress_routes)
publish_routes-Unique_example = publish_routes-Unique publishing some_routes apart_services

abbrev policy_args : TailnetPolicyArgs
policy_args = record {
  cluster_peers = codes "100.64.0.1" ∷ [];
  owners = codes "me@example.com" ∷ [];
  tags = codes "tag:server" ∷ codes "tag:ci" ∷ codes "tag:server" ∷ [];
  pod_network = some (record { cidr = codes "10.42.0.0/16"; routers = codes "tag:server" ∷ [] });
}

policy_runs :
    (fleet_tags policy_args.tags ≡ codes "tag:ci" ∷ codes "tag:server" ∷ [])
    × (first_host (codes "10.42.0.0/16") ≡ codes "10.42.0.1")
    × (first_host (codes "10.42") ≡ codes "10.42..NaN")
unfolding fleet_tags to_sorted insert text_ltb dedup filter text_eq first_host up_one written number
    any split join decimal digits_value
policy_runs = (refl, refl, refl)

abbrev other_order : List Text
other_order = codes "tag:ci" ∷ codes "tag:server" ∷ []

same_tags : (t : Text) → In t policy_args.tags ↔ In t other_order
same_tags t = (
  λ m. elim (In_uncons m) [
    | inl e ↦ subst (λ x. In x other_order) e (there here)
    | inr n ↦ elim (In_uncons n) [
      | inl e ↦ subst (λ x. In x other_order) e here
      | inr k ↦ subst (λ x. In x other_order) (only k) (there here)
    ]
  ],
  λ m. elim (In_uncons m) [
    | inl e ↦ subst (λ x. In x policy_args.tags) e (there here)
    | inr k ↦ subst (λ x. In x policy_args.tags) (only k) here
  ],
)
  where
    only : {u : Text} → In u (codes "tag:server" ∷ []) → codes "tag:server" ≡ u
    only m = elim (In_uncons m) [ inl e ↦ e | inr n ↦ elim n [ ] ]

build_tailnet_policy-tags_example :
    build_tailnet_policy (with_tags policy_args policy_args.tags)
    ≡ build_tailnet_policy (with_tags policy_args other_order)
build_tailnet_policy-tags_example =
    build_tailnet_policy-tags policy_args policy_args.tags other_order same_tags

abbrev asserted : PolicyTest
asserted = record {
  src = codes "tag:ci";
  proto = codes "tcp";
  accept = codes "100.64.0.1:10250" ∷ [];
}
