-- ===== src/Vpn/Users.antt =====
-- The roster of VPN users, packages/vpn/src/users.ts.
use jaritanet.Base.{
  ℕ, Bool, true, false, ◌&&◌, ◌||◌, none, some, List, [], ◌∷◌, ◌++◌, ◌==◌, leb, if◌then◌else◌, Text,
  trim, is_digit, is_truthy, text_eq, any, split, last?,
}
use mathlib.Core.List.{reverse, tail}

pub data Role : Type 0 where
  admin guest : Role

pub record VpnUser : Type 0 where
  pub name : Text
  pub role : Role

-- `throw new Error(…)`, or the parsed list.
pub data Parsed : Type 0 where
  users : List VpnUser → Parsed
  invalid_name : Text → Parsed
  duplicate_name : Text → Parsed

abbrev pub is_letter : ℕ → Bool
is_letter c = (leb b'A' c && leb c b'Z') || (leb b'a' c && leb c b'z')

abbrev pub is_name_unit : ℕ → Bool
is_name_unit c = is_letter c || is_digit c || c == b'_' || c == b'-'

unfoldable pub all_units : Text → Bool
all_units [] = true
all_units (c ∷ s) = is_name_unit c && all_units s

-- `NAME_RE.test(name)`: `/^[a-z][a-z0-9_-]*$/i`
unfoldable pub is_name : Text → Bool
unfolding all_units
is_name [] = false
is_name (c ∷ s) = is_letter c && all_units s

-- A token that is not empty: without its `+`, and the role that this marks.
unfoldable pub parse_token : Text → VpnUser
unfolding trim
parse_token trimmed = elim (last? trimmed) [
  | none ↦ record { name = trim trimmed; role = guest }
  | some c ↦
      if c == b'+'
      then record { name = trim (reverse (tail (reverse trimmed))); role = admin }
      else record { name = trim trimmed; role = guest }
]

-- The loop over the tokens, with the users so far; the set of names that were seen is the names of
-- these.
unfoldable pub parse_from : List VpnUser → List Text → Parsed
unfolding parse_token is_name is_truthy any text_eq
parse_from found [] = users found
parse_from found (token ∷ tokens) =
    let trimmed = trim token in
    let user = parse_token trimmed in
    let skipped = parse_from found tokens in
    let next = parse_from (found ++ user ∷ []) tokens in
    if is_truthy trimmed
    then (if is_name user.name
        then (if any (λ (u : VpnUser). text_eq u.name user.name) found
            then duplicate_name user.name
            else next)
        else invalid_name user.name)
    else skipped

abbrev pub is_comma : ℕ → Bool
is_comma c = c == b','

unfoldable pub parse_vpn_users : Text → Parsed
unfolding parse_from split
parse_vpn_users raw = parse_from [] (split is_comma raw)
