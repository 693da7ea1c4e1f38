-- ===== src/Updates/Pick.antt =====
-- `pickLatestTag` of scripts/update-apps/versions.ts.
pub mod Latest
use jaritanet.Base.{
  Bool, Option, none, some, List, [], ◌∷◌, if◌then◌else◌, Text, filter, starts_with, is_truthy,
  last?,
}
use jaritanet.Updates.Compare.{Sign, below, same, above, compare_versions}

-- `toSorted`: the stable sort by a comparator.
module _ {ℓ} {A : Type ℓ} (cmp : A → A → Sign) where
  insert : A → List A → List A
  insert x [] = x ∷ []
  insert x (y ∷ ys) =
      let later = y ∷ insert x ys in elim (cmp x y) [ above ↦ later | _ ↦ x ∷ y ∷ ys ]

  unfoldable pub sort : List A → List A
  unfolding insert
  sort [] = []
  sort (x ∷ xs) = insert x (sort xs)

-- `prefix ? tags.filter((tag) => tag.startsWith(prefix)) : tags`; an empty prefix is none.
unfoldable pub candidates : List Text → Option Text → List Text
unfolding is_truthy filter starts_with
candidates tags none = tags
candidates tags (some prefix) = if is_truthy prefix then filter (starts_with prefix) tags else tags

unfoldable pub pick_latest_tag : List Text → Option Text → Option Text
unfolding sort candidates
pick_latest_tag tags prefix = last? (sort compare_versions (candidates tags prefix))
