-- ===== src/Infra/Publish/Records.antt =====
-- The DNS records of the published hostnames, `publishRoutes` of packages/infra/src/services.ts.
use jaritanet.Base.{
  ◌≡◌, refl, sym, ap, ◌∙◌, Bool, true, false, ◌&&◌, ◌||◌, Option, none, some, List, [], ◌∷◌, ◌++◌,
  map, if◌then◌else◌, Text, text_eq, text_eq_iff, flat_map, any, Bool-cases, inl, inr,
}
use mathlib.Core.Path.{subst}
use mathlib.Core.List.{append-nil, append_assoc}
use jaritanet.Base.Members.{flat_map-append}
use jaritanet.Base.Sets.{dedup, has, has-append, dedup-append}
use jaritanet.Dns.{Zone, DnsRecord, create_service_record}
use jaritanet.Infra.{Route}
use jaritanet.Infra.Publish.{
  PublishContext, Publication, zone_for, record_in, record_route, publish_route, publish_from,
  publish_routes, nothing_published,
}

-- The record of a hostname, if it lies in a zone.
unfoldable pub records_of : PublishContext → Text → List DnsRecord
records_of ctx hostname = elim (zone_for ctx.zones hostname) [
  | none ↦ []
  | some zone ↦ create_service_record ctx.dns_target zone hostname false ∷ []
]

abbrev is_in_zone : PublishContext → Text → Bool
is_in_zone ctx hostname = elim (zone_for ctx.zones hostname) [ none ↦ false | some _ ↦ true ]

-- The state that the hostnames behind the loop have led to.
record IsRecorded (ctx : PublishContext) (behind : List Text) (p : Publication) : Type 0 where
  records : p.records ≡ flat_map (records_of ctx) (dedup behind)
  recorded : (h : Text) → has h p.recorded ≡ (has h behind && is_in_zone ctx h)

records_behind :
    (ctx : PublishContext) (behind : List Text) (h : Text)
    → flat_map (records_of ctx) (dedup (behind ++ h ∷ []))
      ≡ flat_map (records_of ctx) (dedup behind) ++ (if has h behind then [] else records_of ctx h)
unfolding flat_map
records_behind ctx behind h =
    ap (flat_map (records_of ctx)) (dedup-append behind h)
    ∙ flat_map-append (records_of ctx) (dedup behind) (if has h behind then [] else h ∷ [])
    ∙ ap (λ rs. flat_map (records_of ctx) (dedup behind) ++ rs) (new (has h behind))
  where
    new :
        (b : Bool)
        → flat_map (records_of ctx) (if b then [] else h ∷ [])
          ≡ (if b then [] else records_of ctx h)
    new true = refl
    new false = append-nil (records_of ctx h)

unchanged : (a e z : Bool) → (e ≡ true → (a && z) ≡ z) → (a && z) ≡ ((a || e) && z)
unchanged true e z h = refl
unchanged false true z h = h refl
unchanged false false z h = refl

added : (a e z : Bool) → (e ≡ true → z ≡ true) → ((a && z) || e) ≡ ((a || e) && z)
added true true z h = rw (h refl)
added true false z h = elim (Bool-cases z) [ inl t ↦ rw t | inr f ↦ rw f ]
added false true z h = sym (h refl)
added false false z h = refl

outside :
    (ctx : PublishContext) (h : Text)
    → zone_for ctx.zones h ≡ none
    → (records_of ctx h ≡ []) × (is_in_zone ctx h ≡ false)
unfolding records_of
outside ctx h e = (
  ap
      (λ o. elim o [
        | none ↦ []
        | some zone ↦ create_service_record ctx.dns_target zone h false ∷ []
      ])
      e,
  ap (λ o. elim o [ none ↦ false | some _ ↦ true ]) e,
)

inside :
    (ctx : PublishContext) (h : Text) (zone : Zone)
    → zone_for ctx.zones h ≡ some zone
    → (records_of ctx h ≡ create_service_record ctx.dns_target zone h false ∷ [])
      × (is_in_zone ctx h ≡ true)
unfolding records_of
inside ctx h zone e = (
  ap
      (λ o. elim o [
        | none ↦ []
        | some zone ↦ create_service_record ctx.dns_target zone h false ∷ []
      ])
      e,
  ap (λ o. elim o [ none ↦ false | some _ ↦ true ]) e,
)

nothing_new : (b : Bool) (rs : List DnsRecord) → rs ≡ [] → (if b then [] else rs) ≡ []
nothing_new true rs e = refl
nothing_new false rs e = e

none_inside : (a z : Bool) → z ≡ false → (a && z) ≡ z
none_inside a z e = elim (Bool-cases a) [ inl t ↦ rw t | inr f ↦ rw (f, e) ]

both : (a z : Bool) → z ≡ true → (a && z) ≡ a
both true z e = e
both false z e = refl

module _ (ctx : PublishContext) (behind : List Text) (p : Publication) (h : Text) where
  -- Where the hostname lies in no zone, or has a record, the state stays as it is.
  kept :
      (if has h behind then [] else records_of ctx h) ≡ []
      → (has h behind && is_in_zone ctx h) ≡ is_in_zone ctx h
      → IsRecorded ctx behind p
      → IsRecorded ctx (behind ++ h ∷ []) p
  kept c d i = record {
    records =
        i.records
        ∙ sym (append-nil (flat_map (records_of ctx) (dedup behind)))
        ∙ ap (λ rs. flat_map (records_of ctx) (dedup behind) ++ rs) (sym c)
        ∙ sym (records_behind ctx behind h);
    recorded = λ k.
        i.recorded k
        ∙ unchanged (has k behind) (text_eq h k) (is_in_zone ctx k) (λ e.
          subst (λ x. (has x behind && is_in_zone ctx x) ≡ is_in_zone ctx x) ((text_eq_iff h k).0 e)
            d)
        ∙ ap (λ b. b && is_in_zone ctx k) (sym (has-append k h behind));
  }

  extended :
      (rs : List DnsRecord)
      → has h behind ≡ false
      → records_of ctx h ≡ rs
      → is_in_zone ctx h ≡ true
      → IsRecorded ctx behind p
      → IsRecorded ctx (behind ++ h ∷ []) (record {
        recorded = p.recorded ++ h ∷ [];
        records = p.records ++ rs;
        ingress_routes = p.ingress_routes;
        published = p.published;
      })
  extended rs new e z i = record {
    records =
        ap (λ qs. qs ++ rs) i.records
        ∙ ap (λ qs. flat_map (records_of ctx) (dedup behind) ++ qs)
            (sym e ∙ ap (λ b. if b then [] else records_of ctx h) (sym new))
        ∙ sym (records_behind ctx behind h);
    recorded = λ k.
        has-append k h p.recorded
        ∙ ap (λ b. b || text_eq h k) (i.recorded k)
        ∙ added (has k behind) (text_eq h k) (is_in_zone ctx k)
            (λ t. ap (is_in_zone ctx) (sym ((text_eq_iff h k).0 t)) ∙ z)
        ∙ ap (λ b. b && is_in_zone ctx k) (sym (has-append k h behind));
  }

record_in-IsRecorded :
    (ctx : PublishContext) (behind : List Text) (p : Publication) (h : Text) (o : Option Zone)
    → zone_for ctx.zones h ≡ o
    → IsRecorded ctx behind p
    → IsRecorded ctx (behind ++ h ∷ []) (record_in ctx p h o)
unfolding record_in
record_in-IsRecorded ctx behind p h none e i =
    let (empty, out) = outside ctx h e in
    kept ctx behind p h (nothing_new (has h behind) (records_of ctx h) empty)
      (none_inside (has h behind) (is_in_zone ctx h) out) i
record_in-IsRecorded ctx behind p h (some zone) e i =
    let (one, in_zone) = inside ctx h zone e in
    let both_have = both (has h behind) (is_in_zone ctx h) in_zone in
    let same : has h behind ≡ has h p.recorded = sym (i.recorded h ∙ both_have) in
    elim (Bool-cases (has h p.recorded)) [
      | inl old ↦ rw old (
          kept ctx behind p h (ap (λ b. if b then [] else records_of ctx h) (same ∙ old))
            (both_have ∙ (same ∙ old) ∙ sym in_zone) i)
      | inr new ↦ rw new (
          extended ctx behind p h (create_service_record ctx.dns_target zone h false ∷ [])
            (same ∙ new) one in_zone i)
    ]

publish_from-IsRecorded :
    (ctx : PublishContext) (behind : List Text) (p : Publication) (routes : List Route)
    → IsRecorded ctx behind p
    → IsRecorded ctx (behind ++ map (λ (r : Route). r.hostname) routes) (publish_from ctx p routes)
unfolding publish_from publish_route record_route
publish_from-IsRecorded ctx behind p [] i =
    subst (λ hs. IsRecorded ctx hs p) (sym (append-nil behind)) i
publish_from-IsRecorded ctx behind p (route ∷ routes) i =
    let j =
      record_in-IsRecorded ctx behind p route.hostname (zone_for ctx.zones route.hostname) refl i in
    subst (λ hs. IsRecorded ctx hs (publish_from ctx (publish_route ctx p route) routes))
      (append_assoc behind (route.hostname ∷ []) (map (λ (r : Route). r.hostname) routes))
      (publish_from-IsRecorded ctx (behind ++ route.hostname ∷ []) (publish_route ctx p route)
        routes (record { records = j.records; recorded = j.recorded }))

-- Publishing makes one record for each hostname of the routes that lies in a zone, in the order in
-- which they first stand, however many routes share it.
pub publish_routes-records :
    (ctx : PublishContext) (routes : List Route)
    → (publish_routes ctx routes).records
      ≡ flat_map (records_of ctx) (dedup (map (λ (r : Route). r.hostname) routes))
unfolding publish_routes dedup flat_map has any
publish_routes-records ctx routes =
    (publish_from-IsRecorded ctx [] nothing_published routes
      (record { records = refl; recorded = λ h. refl })).records
