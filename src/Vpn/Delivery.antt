-- ===== src/Vpn/Delivery.antt =====
-- The table of profiles that packages/vpn/src/profiles.ts serves. The digest that a path is made of
-- is cryptography, and an argument; a body is the profile itself, before it is printed.
pub mod Keys
use jaritanet.Base.{
  ℕ, Bool, true, false, Option, none, some, List, [], ◌∷◌, ◌++◌, map, flat_map, any, if◌then◌else◌,
  Text, codes,
}
use jaritanet.Updates.Run.{take_units}
use jaritanet.Vpn.Users.{VpnUser}
use jaritanet.Vpn.Singbox.Data.{ResolvedNode, ResolvedExit}
use jaritanet.Vpn.Singbox.Outbounds.{Client, sing_box, sbr}
use jaritanet.Vpn.Singbox.Profile.{Profile, build_profile}

-- `pathFor`, with the digest in hexadecimal.
unfoldable pub path_for : (Text → Text) → Text → Text → Text
path_for digest slug name =
    codes "/" ++ (take_units 32 (digest (slug ++ (codes ":" ++ name))) ++ codes ".json")

pub record Variant : Type 0 where
  pub suffix : Text
  pub client : Client

pub record Entry : Type 0 where
  pub user : VpnUser
  pub client : Client
  pub key : Text

abbrev pub plain_variant : Variant
plain_variant = record { suffix = []; client = sing_box }

abbrev pub sbr_variant : Variant
sbr_variant = record { suffix = codes ".sbr"; client = sbr }

abbrev pub is_fronted : ResolvedNode → Bool
is_fronted n = elim n.xhttp [ none ↦ false | some _ ↦ true ]

unfoldable pub variants : List ResolvedNode → List Variant
unfolding any
variants nodes = plain_variant ∷ (if any is_fronted nodes then sbr_variant ∷ [] else [])

abbrev pub entry_of : VpnUser → Variant → Entry
entry_of user v = record { user = user; client = v.client; key = user.name ++ v.suffix }

unfoldable pub entries : List VpnUser → List ResolvedNode → List Entry
unfolding flat_map variants
entries users nodes = flat_map (λ user. map (entry_of user) (variants nodes)) users

-- The entries of the table, before `Object.fromEntries` keeps the last of each path.
unfoldable pub routes :
    (Text → Text)
    → Text
    → Text
    → List VpnUser
    → List ResolvedNode
    → List ResolvedExit
    → List (Text × Profile)
unfolding path_for entries build_profile
routes digest slug suffix users nodes exits =
    map
      (λ (e : Entry).
        (path_for digest slug e.key, build_profile e.user nodes suffix exits e.client))
      (entries users nodes)
