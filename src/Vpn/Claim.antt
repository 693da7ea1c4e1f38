-- ===== src/Vpn/Claim.antt =====
-- `planClaim` of packages/vpn/scripts/claim-tailnet-name.ts: which registrations a fresh node
-- replaces.
use jaritanet.Base.{
  ℕ, ◌≡◌, ◌≢◌, Bool, true, false, not, ◌&&◌, Option, none, some, List, map, ◌==◌, ◌>>=◌, Text,
  text_eq, any, filter, find?, split_first, In,
}

pub record Device : Type 0 where
  pub node_id : Text
  pub hostname : Text
  pub name : Text
  pub tags : Option (List Text)

pub record Plan : Type 0 where
  pub remove : List Text
  pub rename : Bool

-- `(d.tags ?? []).includes(tag)`
unfoldable pub has_tag : Text → Option (List Text) → Bool
unfolding any text_eq
has_tag tag none = false
has_tag tag (some tags) = any (λ t. text_eq t tag) tags

unfoldable pub is_predecessor : Text → Text → Text → Device → Bool
unfolding has_tag text_eq
is_predecessor self hostname tag d =
    not (text_eq d.node_id self) && (text_eq d.hostname hostname && has_tag tag d.tags)

abbrev is_dot : ℕ → Bool
is_dot c = c == b'.'

abbrev id_of : Device → Text
id_of d = d.node_id

unfoldable pub plan_of : List Device → Text → Text → Text → Device → Plan
unfolding filter is_predecessor split_first text_eq
plan_of devices self hostname tag node = record {
  remove = map id_of (filter (is_predecessor self hostname tag) devices);
  rename = not (text_eq (split_first is_dot node.name).0 hostname);
}

-- `none` is the exception for a node that is not in the list.
unfoldable pub plan_claim : List Device → Text → Text → Text → Option Plan
unfolding find? plan_of text_eq
plan_claim devices self hostname tag =
    find? (λ (d : Device). text_eq d.node_id self) devices >>= λ node.
    some (plan_of devices self hostname tag node)

-- What a device is that the plan deletes.
pub record IsReplaced (devices : List Device) (self hostname tag id : Text) : Type 0 where
  pub device : Device
  pub listed : In device devices
  pub named : device.node_id ≡ id
  pub other : id ≢ self
  pub same_host : device.hostname ≡ hostname
  pub same_tag : has_tag tag device.tags ≡ true
