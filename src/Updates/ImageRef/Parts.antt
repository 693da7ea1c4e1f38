-- ===== src/Updates/ImageRef/Parts.antt =====
-- Which registry and repository `parseImageRef` of scripts/update-apps/versions.ts reads from a
-- reference.
use jaritanet.Base.{◌≡◌, refl, List, [], ◌∷◌, ◌++◌, Text, codes, join, All}
use jaritanet.Base.Slices.{split_last-append, split-join, Lacks}
use jaritanet.Updates.ImageRef.{ImageRef, name_and_tag, from_parts, parse_image_ref, is_slash}

-- A reference: parts joined by slashes, a colon and a tag.
abbrev pub reference : Text → List Text → Text → Text
reference first parts tag = join (codes "/") (first ∷ parts) ++ b':' ∷ tag

-- What the two registries' conventions say: three parts or more begin with the registry's host, two
-- are a repository of Docker Hub, and one is an official image, which Docker Hub files under
-- `library/`.
abbrev pub conventional : Text → List Text → Text → ImageRef
conventional first [] tag = record {
  registry = codes "docker.io";
  repository = codes "library" ++ b'/' ∷ first;
  tag = tag;
}
conventional first (second ∷ []) tag = record {
  registry = codes "docker.io";
  repository = first ++ b'/' ∷ second;
  tag = tag;
}
conventional first (second ∷ third ∷ more) tag = record {
  registry = first;
  repository = join (codes "/") (second ∷ third ∷ more);
  tag = tag;
}

from_parts-conventional :
    (first : Text) (parts : List Text) (tag : Text)
    → from_parts (join (codes "/") (first ∷ parts)) (first ∷ parts) tag
      ≡ conventional first parts tag
unfolding from_parts join
from_parts-conventional first [] tag = refl
from_parts-conventional first (second ∷ []) tag = refl
from_parts-conventional first (second ∷ third ∷ more) tag = refl

-- A reference whose parts hold no slash and whose tag holds no colon is taken apart by the
-- conventions; a host may carry a port.
pub parse_image_ref-reference :
    (first : Text) (parts : List Text) (tag : Text)
    → All (Lacks b'/') (first ∷ parts)
    → Lacks b':' tag
    → parse_image_ref (reference first parts tag) ≡ conventional first parts tag
unfolding parse_image_ref name_and_tag
parse_image_ref-reference first parts tag h k =
    rw (split_last-append b':' (join (codes "/") (first ∷ parts)) tag k, name_and_tag)
      (rw (split-join is_slash b'/' refl first parts h) (from_parts-conventional first parts tag))
