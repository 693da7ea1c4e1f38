-- ===== src/Updates/Compare.antt =====
-- `normaliseVersion` and `compareVersions` of scripts/update-apps/versions.ts. A comparator's
-- result is the sign of the number that the source returns, which is all that a sort reads.
use jaritanet.Base.{
  ℕ, Bool, true, false, ◌&&◌, ◌||◌, Option, none, some, List, [], ◌∷◌, ltb, ◌==◌, if◌then◌else◌,
  Text, text_eq, is_digit, not, drop_while, split, is_truthy,
}
use jaritanet.Updates.Number.{Numeral, finite, infinity, number}

pub data Sign : Type 0 where
  below same above : Sign

abbrev pub flip : Sign → Sign
flip below = above
flip same = same
flip above = below

-- `tag.replace(/^\D*/, "")`
unfoldable pub normalise_version : Text → Text
unfolding drop_while
normalise_version = drop_while (λ c. not (is_digit c))

-- `numA - numB`, where they differ.
unfoldable pub compare_numbers : Numeral → Numeral → Sign
compare_numbers (finite m) (finite n) = if ltb m n then below else if ltb n m then above else same
compare_numbers (finite m) infinity = below
compare_numbers infinity (finite n) = above
compare_numbers infinity infinity = same

-- `s < t` on strings, by code units.
unfoldable pub text_lt : Text → Text → Bool
text_lt [] [] = false
text_lt [] (b ∷ t) = true
text_lt (a ∷ s) [] = false
text_lt (a ∷ s) (b ∷ t) = if ltb a b then true else a == b && text_lt s t

unfoldable pub compare_texts : Text → Text → Sign
unfolding text_lt text_eq
compare_texts a b = if text_eq a b then same else if text_lt a b then below else above

-- `number` of a part that is not empty.
unfoldable pub numeric : Text → Option Numeral
unfolding number is_truthy
numeric part = if is_truthy part then number part else none

-- One round of the loop; `same` goes on to the next.
unfoldable pub compare_part : Text → Text → Sign
unfolding compare_numbers compare_texts numeric
compare_part a b = elim (numeric a) [
  | none ↦ compare_texts a b
  | some m ↦ elim (numeric b) [ none ↦ compare_texts a b | some n ↦ compare_numbers m n ]
]

abbrev pub continue : Sign → Sign → Sign
continue below rest = below
continue same rest = rest
continue above rest = above

-- The loop over both lists of parts, where a missing part is the empty text.
unfoldable pub compare_parts : List Text → List Text → Sign
unfolding compare_part
compare_parts [] [] = same
compare_parts [] (b ∷ bs) = continue (compare_part [] b) (compare_parts [] bs)
compare_parts (a ∷ as') [] = continue (compare_part a []) (compare_parts as' [])
compare_parts (a ∷ as') (b ∷ bs) = continue (compare_part a b) (compare_parts as' bs)

abbrev pub is_separator : ℕ → Bool
is_separator c = c == b'.' || c == b'-'

unfoldable pub parts : Text → List Text
unfolding normalise_version split
parts tag = split is_separator (normalise_version tag)

unfoldable pub compare_versions : Text → Text → Sign
unfolding compare_parts parts
compare_versions a b = compare_parts (parts a) (parts b)
