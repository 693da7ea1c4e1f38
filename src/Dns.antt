-- ===== src/Dns.antt =====
-- The DNS records of a zone, packages/dns/src/dns.ts. Looking a zone up by name is Cloudflare's.
pub mod Names
mod Examples
use jaritanet.Base.{
  ℕ, Bool, true, false, Option, none, some, List, [], ◌∷◌, ◌++◌, map, ◌==◌, if◌then◌else◌, Text,
  codes, split, join,
}

pub record ZoneConf : Type 0 where
  pub modules : List Text
  pub name : Text
  pub zone_id : Option Text

pub record Zone : Type 0 where
  pub modules : List Text
  pub name : Text
  pub zone_id : Text

-- The fields that a record does not have are `none`.
pub record DnsRecord : Type 0 where
  pub resource : Text
  pub content : Text
  pub name : Text
  pub priority : Option ℕ
  pub proxied : Option Bool
  pub ttl : ℕ
  pub type : Text
  pub zone_id : Text

pub record FastmailConf : Type 0 where
  pub dkim_domain : Text
  pub dkim_subdomain : Text
  pub dmarc_agg_email : Text
  pub dmarc_policy : Text
  pub dmarc_subdomain : Text
  pub mx_domain : Text
  pub spf_domain : Text

-- `resolveZones`, with the id that the account has for a name.
unfoldable pub resolve_zones : (Text → Text) → List ZoneConf → List Zone
resolve_zones id_of zones =
    map
      (λ (z : ZoneConf). record {
        modules = z.modules;
        name = z.name;
        zone_id = elim z.zone_id [ none ↦ id_of z.name | some id ↦ id ];
      })
      zones

abbrev pub is_dot : ℕ → Bool
is_dot c = c == b'.'

-- `parts.slice(0, -2)`
unfoldable pub drop_last_two : List Text → List Text
drop_last_two [] = []
drop_last_two (a ∷ []) = []
drop_last_two (a ∷ b ∷ []) = []
drop_last_two (a ∷ b ∷ c ∷ more) = a ∷ drop_last_two (b ∷ c ∷ more)

-- `parts.length === 2 ? "@" : parts.slice(0, -2).join(".")`
unfoldable pub name_of : List Text → Text
unfolding drop_last_two join
name_of (a ∷ b ∷ []) = codes "@"
name_of parts = join (codes ".") (drop_last_two parts)

unfoldable pub create_service_record : Text → Zone → Text → Bool → DnsRecord
unfolding name_of split
create_service_record vps_ip zone hostname proxied = record {
  resource = hostname ++ codes "-a-record";
  content = vps_ip;
  name = name_of (split is_dot hostname);
  priority = none;
  proxied = some proxied;
  ttl = 1;
  type = codes "A";
  zone_id = zone.zone_id;
}

abbrev mx_record : Zone → FastmailConf → Text → ℕ → DnsRecord
mx_record zone fastmail key priority = record {
  resource = zone.name ++ (codes "-fm-mx-" ++ key);
  content = key ++ (codes "." ++ fastmail.mx_domain);
  name = zone.name;
  priority = some priority;
  proxied = none;
  ttl = 1;
  type = codes "MX";
  zone_id = zone.zone_id;
}

abbrev dkim_record : Zone → FastmailConf → Text → DnsRecord
dkim_record zone fastmail key = record {
  resource = zone.name ++ (codes "-fm-dkim-" ++ key);
  content = key ++ (codes "." ++ (zone.name ++ (codes "." ++ fastmail.dkim_domain)));
  name = key ++ (codes "." ++ fastmail.dkim_subdomain);
  priority = none;
  proxied = some false;
  ttl = 1;
  type = codes "CNAME";
  zone_id = zone.zone_id;
}

abbrev text_record : Zone → Text → Text → Text → DnsRecord
text_record zone resource content name = record {
  resource = resource;
  content = content;
  name = name;
  priority = none;
  proxied = none;
  ttl = 1;
  type = codes "TXT";
  zone_id = zone.zone_id;
}

unfoldable pub create_fastmail_records : Zone → FastmailConf → List DnsRecord
create_fastmail_records zone fastmail =
    mx_record zone fastmail (codes "in1") 10
    ∷ mx_record zone fastmail (codes "in2") 20
    ∷ dkim_record zone fastmail (codes "fm1")
    ∷ dkim_record zone fastmail (codes "fm2")
    ∷ dkim_record zone fastmail (codes "fm3")
    ∷ dkim_record zone fastmail (codes "fm4")
    ∷ text_record zone (zone.name ++ codes "-fm-spf")
        (codes "\"v=spf1 include:" ++ (fastmail.spf_domain ++ codes " ?all\"")) zone.name
    ∷ text_record zone (zone.name ++ codes "-fm-dmarc")
        (codes "\"v=DMARC1; p="
          ++ (fastmail.dmarc_policy
              ++ (codes "; rua=mailto:" ++ (fastmail.dmarc_agg_email ++ codes "\""))))
        fastmail.dmarc_subdomain
    ∷ []

unfoldable pub create_bluesky_records : Zone → Text → List DnsRecord
create_bluesky_records zone did =
    text_record zone (zone.name ++ codes "-bs-did") (codes "\"did=" ++ (did ++ codes "\""))
      (codes "_atproto")
    ∷ []
