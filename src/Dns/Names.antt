-- ===== src/Dns/Names.antt =====
-- The names of service records, packages/dns/src/dns.ts.
use jaritanet.Base.{◌≡◌, refl, ap, ◌∙◌, Bool, List, [], ◌∷◌, ◌++◌, Text, codes, All, join}
use jaritanet.Base.Slices.{Lacks, split-join}
use jaritanet.Dns.{Zone, is_dot, drop_last_two, name_of, create_service_record}

-- A hostname: labels, the last two of which are the zone's.
abbrev pub hostname : List Text → Text → Text → Text
hostname [] domain top = join (codes ".") (domain ∷ top ∷ [])
hostname (s ∷ ss) domain top = join (codes ".") ((s ∷ ss) ++ domain ∷ top ∷ [])

-- What a record of the zone is called: by the labels in front of the zone's, or `@` for the zone
-- itself.
abbrev pub relative : List Text → Text
relative [] = codes "@"
relative (s ∷ ss) = join (codes ".") (s ∷ ss)

drop_last_two-append :
    (ss : List Text) (domain top : Text) → drop_last_two (ss ++ domain ∷ top ∷ []) ≡ ss
unfolding drop_last_two
drop_last_two-append [] domain top = refl
drop_last_two-append (s ∷ []) domain top = refl
drop_last_two-append (s ∷ t ∷ []) domain top = refl
drop_last_two-append (s ∷ t ∷ r ∷ ss) domain top =
    ap (λ xs. s ∷ xs) (drop_last_two-append (t ∷ r ∷ ss) domain top)

name_of-relative :
    (ss : List Text) (domain top : Text) → name_of (ss ++ domain ∷ top ∷ []) ≡ relative ss
unfolding name_of
name_of-relative [] domain top = refl
name_of-relative (s ∷ []) domain top =
    ap (join (codes ".")) (drop_last_two-append (s ∷ []) domain top)
name_of-relative (s ∷ t ∷ []) domain top = refl
name_of-relative (s ∷ t ∷ r ∷ ss) domain top =
    ap (join (codes ".")) (drop_last_two-append (s ∷ t ∷ r ∷ ss) domain top)

-- The record of a hostname of a zone of two labels is called by the labels in front of the zone's,
-- or `@` for the zone itself, where no label holds a dot.
pub create_service_record-relative :
    (ip : Text) (zone : Zone) (subdomains : List Text) (domain top : Text) (proxied : Bool)
    → All (Lacks b'.') (subdomains ++ domain ∷ top ∷ [])
    → (create_service_record ip zone (hostname subdomains domain top) proxied).name
      ≡ relative subdomains
unfolding create_service_record
create_service_record-relative ip zone [] domain top proxied h =
    ap name_of (split-join is_dot b'.' refl domain (top ∷ []) h) ∙ name_of-relative [] domain top
create_service_record-relative ip zone (s ∷ ss) domain top proxied h =
    ap name_of (split-join is_dot b'.' refl s (ss ++ domain ∷ top ∷ []) h)
    ∙ name_of-relative (s ∷ ss) domain top
