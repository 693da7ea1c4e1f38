-- ===== src/Updates/Decide.antt =====
-- `decide` of scripts/update-apps/versions.ts: what a run does about one tracked component.
pub mod Outcomes
use jaritanet.Base.{
  ◌≡◌, ◌≢◌, ◌↔◌, ◌⊎◌, inl, inr, refl, Bool, true, false, Option, none, some, List, [], ◌∷◌, ◌++◌,
  ◌&&◌, not, arith, if◌then◌else◌, Text, codes, text_eq, text_eq_iff, is_truthy,
}

pub data Decision : Type 0 where
  up_to_date : Text → Decision
  update : Text → Text → Decision
  lagging : Text → Decision
  problem : Text → Decision

pub record Facts : Type 0 where
  pub tag : Text
  pub current : Option Text
  pub next : Text
  pub ref : Option Text
  pub exists : Bool

-- `ref && !exists`
unfoldable pub is_missing : Option Text → Bool → Bool
unfolding is_truthy
is_missing none exists = false
is_missing (some ref) exists = is_truthy ref && not exists

abbrev pub moved : Text
moved = codes "nothing at the configured path, the config moved"

abbrev pub gone : Text → Text
gone ref = codes "pinned to " ++ (ref ++ codes ", which is not in the registry")

abbrev pub behind : Text → Text → Text → Text
behind tag ref current =
    codes "released "
    ++ (tag
        ++ (codes " but "
            ++ (ref ++ (codes " is not in the registry yet; staying on " ++ current))))

abbrev pub or_empty : Option Text → Text
or_empty none = []
or_empty (some s) = s

decide_current : Facts → Text → Decision
decide_current f current =
    if is_missing f.ref f.exists
    then (if text_eq current f.next
        then problem (gone (or_empty f.ref))
        else lagging (behind f.tag (or_empty f.ref) current))
    else if text_eq current f.next
    then up_to_date current
    else update current f.next

-- An absent or empty `current` is falsy.
decide_read : Facts → Option Text → Decision
unfolding is_missing decide_current is_truthy
decide_read f none = problem moved
decide_read f (some current) = if is_truthy current then decide_current f current else problem moved

unfoldable pub decide : Facts → Decision
unfolding decide_read
decide f = decide_read f f.current
