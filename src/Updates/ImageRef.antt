-- ===== src/Updates/ImageRef.antt =====
-- `parseImageRef`, `chartServes` and `verifyRef` of scripts/update-apps/versions.ts.
pub mod Parts
use mathlib.Core.List.{reverse, tail}
use jaritanet.Base.{
  ℕ, ◌≡◌, Bool, true, false, Option, none, some, List, [], ◌∷◌, ◌++◌, ◌==◌, ◌||◌, ◌&&◌, String,
  if◌then◌else◌, Text, codes, split, join, is_truthy, is_newline, text_eq, not,
}
use jaritanet.Base.Slices.{split_last}
use jaritanet.Updates.Template.{apply_template}

pub record ImageRef : Type 0 where
  pub registry : Text
  pub repository : Text
  pub tag : Text

abbrev pub is_slash : ℕ → Bool
is_slash c = c == b'/'

abbrev slash : Text
slash = codes "/"

abbrev pub docker_hub : Text
docker_hub = codes "docker.io"

-- Without a colon `lastIndexOf` is -1: the tag is the whole text, and `slice(0, -1)` drops the
-- last unit of the name.
unfoldable pub name_and_tag : Text → Text × Text
unfolding split_last
name_and_tag ref = elim (split_last b':' ref) [
  | some (before, after) ↦ (before, after)
  | none ↦ (reverse (tail (reverse ref)), ref)
]

-- The parts of the name, and the tag.
unfoldable pub from_parts : Text → List Text → Text → ImageRef
unfolding join
from_parts name (registry ∷ a ∷ b ∷ more) tag = record {
  registry = registry;
  repository = join slash (a ∷ b ∷ more);
  tag = tag;
}
from_parts name (a ∷ b ∷ []) tag = record { registry = docker_hub; repository = name; tag = tag }
from_parts name _ tag = record {
  registry = docker_hub;
  repository = codes "library/" ++ name;
  tag = tag;
}

unfoldable pub parse_image_ref : Text → ImageRef
unfolding name_and_tag from_parts split
parse_image_ref ref =
    let (name, tag) = name_and_tag ref in from_parts name (split is_slash name) tag

-- A parsed YAML document, as far as `chartServes` looks into it.
mutual
  pub data Yaml : Type 0 where
    null : Yaml
    scalar : Yaml
    string : Text → Yaml
    seq : Items → Yaml
    table : Fields → Yaml

  pub data Items : Type 0 where
    nil : Items
    item : Yaml → Items → Items

  pub data Fields : Type 0 where
    end : Fields
    field : Text → Yaml → Fields → Fields

-- `v?.name` and `v?.[name]`: a key of a table; nothing else has one of these names.
fields_get : Text → Fields → Option Yaml
unfolding text_eq
fields_get name end = none
fields_get name (field k v rest) = if text_eq k name then some v else fields_get name rest

unfoldable pub get : Text → Yaml → Option Yaml
unfolding fields_get
get name (table fields) = fields_get name fields
get name v = none

abbrev is_string : Option Yaml → Text → Bool
is_string (some (string s)) t = text_eq s t
is_string _ t = false

-- `versions.some((v) => v.version === version)`; reading a property of `null` throws, which is
-- `none`.
serves : Text → Items → Option Bool
unfolding get
serves version nil = some false
serves version (item null rest) = none
serves version (item v rest) =
    let later = serves version rest in
    if is_string (get (codes "version") v) version then some true else later

charts_serve : Text → Option Yaml → Option Bool
unfolding serves
charts_serve version (some (seq versions)) = serves version versions
charts_serve version _ = some false

unfoldable pub chart_serves : Yaml → Text → Text → Option Bool
unfolding charts_serve
chart_serves index chart version =
    charts_serve version
      (elim (get (codes "entries") index) [ none ↦ none | some entries ↦ get chart entries ])

-- `/\/.*:/.test(s)`: a slash, and a colon behind it on the same line.
colon_follows : Text → Bool
colon_follows [] = false
colon_follows (c ∷ s) = c == b':' || (not (is_newline c) && colon_follows s)

unfoldable pub is_full_reference : Text → Bool
unfolding colon_follows is_newline
is_full_reference [] = false
is_full_reference (c ∷ s) = (c == b'/' && colon_follows s) || is_full_reference s

-- What `verifyRef` reads of an entry: the template of its value, and of its image where it has one.
verify_value : Text → Text → Option Text
unfolding apply_template is_full_reference
verify_value value version =
    let next = apply_template value version in if is_full_reference next then some next else none

unfoldable pub verify_ref : Text → Option Text → Text → Option Text
unfolding verify_value is_truthy
verify_ref value none version = verify_value value version
verify_ref value (some image) version =
    if is_truthy image then some (apply_template image version) else verify_value value version
