-- ===== src/Dns/Examples.antt =====
-- Each theorem on DNS records at a concrete input.
use jaritanet.Base.{◌≡◌, refl, false, [], ◌∷◌, codes, join, split}
use jaritanet.Dns.{Zone, create_service_record, name_of, drop_last_two}
use jaritanet.Dns.Names.{hostname, relative, create_service_record-relative}

abbrev zone : Zone
zone = record { modules = []; name = codes "a.b"; zone_id = codes "z" }

create_service_record-relative_example :
    (create_service_record
      (codes "1.2.3.4")
      zone
      (hostname (codes "x" ∷ codes "y" ∷ []) (codes "a") (codes "b"))
      false).name
    ≡ relative (codes "x" ∷ codes "y" ∷ [])
create_service_record-relative_example =
    create_service_record-relative (codes "1.2.3.4") zone (codes "x" ∷ codes "y" ∷ []) (codes "a")
      (codes "b") false ((refl, tt), ((refl, tt), ((refl, tt), ((refl, tt), tt))))

-- In a zone of three labels the name keeps one of the zone's.
longer_zone :
    (create_service_record
      (codes "1.2.3.4")
      (record zone { name = codes "a.co.uk" })
      (codes "x.a.co.uk")
      false).name
    ≡ codes "x.a"
unfolding create_service_record name_of drop_last_two join split
longer_zone = refl
