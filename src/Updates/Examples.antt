-- ===== src/Updates/Examples.antt =====
-- Each theorem on scripts/update-apps/versions.ts at a concrete input.
use jaritanet.Base.{
  ◌≡◌, ◌≢◌, ◌↔◌, ◌⊎◌, refl, none, some, true, List, [], ◌∷◌, ◌++◌, Text, codes, In, All, arith,
}
use jaritanet.Base.Decimal.{digits_value}
use jaritanet.Base.Slices.{Lacks}
use jaritanet.Updates.Tests.{runs}
use jaritanet.Updates.Compare.{above, parts, compare_versions}
use jaritanet.Updates.Order.{IsSegment, IsRelease, key, lex, compare_versions-eq-lex}
use jaritanet.Updates.Pick.{candidates, pick_latest_tag}
use jaritanet.Updates.Pick.Latest.{pick_latest_tag-lex}
use jaritanet.Updates.Template.{placeholder, apply_template, apply_template_once}
use jaritanet.Updates.ImageRef.{parse_image_ref}
use jaritanet.Updates.ImageRef.Parts.{reference, conventional, parse_image_ref-reference}
use jaritanet.Updates.Decide.{update, lagging, problem, Facts, moved, gone, behind, decide}
use jaritanet.Updates.Decide.Outcomes.{
  IsPinned, IsUnpublished, IsAvailable, decide-update_iff, decide-lagging_iff, decide-problem_iff,
}
use jaritanet.Updates.Pins.{quote, read_const, write_const}
use jaritanet.Updates.Pins.Const.{IsKey}
use jaritanet.Updates.Pins.Edits.{read_const-write_const, write_const_replaces}

abbrev mixed : Text
mixed = codes "3.0-rc1"

abbrev old_tag : Text
old_tag = codes "v0.1.9"

abbrev new_tag : Text
new_tag = codes "v0.1.19"

segment0 : IsSegment (codes "0")
unfolding digits_value
segment0 = record { written = λ e. cc e; decimal = (refl, tt); exact = omega arith }

segment1 : IsSegment (codes "1")
unfolding digits_value
segment1 = record { written = λ e. cc e; decimal = (refl, tt); exact = omega arith }

segment9 : IsSegment (codes "9")
unfolding digits_value
segment9 = record { written = λ e. cc e; decimal = (refl, tt); exact = omega arith }

segment19 : IsSegment (codes "19")
unfolding digits_value
segment19 = record { written = λ e. cc e; decimal = (refl, (refl, tt)); exact = omega arith }

old_IsRelease : IsRelease old_tag
unfolding runs parts
old_IsRelease = (segment0, (segment1, (segment9, tt)))

new_IsRelease : IsRelease new_tag
unfolding runs parts
new_IsRelease = (segment0, (segment1, (segment19, tt)))

compare_versions-eq-lex_example : compare_versions old_tag new_tag ≡ lex (key old_tag) (key new_tag)
compare_versions-eq-lex_example =
    compare_versions-eq-lex old_tag new_tag old_IsRelease new_IsRelease

abbrev tags : List Text
tags = new_tag ∷ codes "chart-7" ∷ old_tag ∷ []

tags_released : All IsRelease (candidates tags (some (codes "v0.")))
unfolding runs candidates
tags_released = (new_IsRelease, (old_IsRelease, tt))

tags_picked : pick_latest_tag tags (some (codes "v0.")) ≡ some new_tag
unfolding runs
tags_picked = refl

pick_latest_tag-lex_example :
    In new_tag (candidates tags (some (codes "v0.")))
    × All (λ u. lex (key u) (key new_tag) ≢ above) (candidates tags (some (codes "v0.")))
pick_latest_tag-lex_example =
    pick_latest_tag-lex tags (some (codes "v0.")) new_tag tags_released tags_picked

apply_template_once_example :
    apply_template (codes "traefik-" ++ (placeholder ++ codes ".tgz")) old_tag
    ≡ codes "traefik-" ++ (old_tag ++ codes ".tgz")
apply_template_once_example =
    apply_template_once (codes "traefik-") (codes ".tgz") old_tag
      (refl, (refl, (refl, (refl, (refl, (refl, (refl, (refl, tt))))))))
      (refl, (refl, (refl, (refl, tt)))) (refl, (refl, (refl, (refl, (refl, (refl, tt))))))

parse_image_ref-reference_example :
    parse_image_ref (reference (codes "a:5") (codes "b" ∷ codes "c" ∷ []) (codes "1"))
    ≡ conventional (codes "a:5") (codes "b" ∷ codes "c" ∷ []) (codes "1")
parse_image_ref-reference_example =
    parse_image_ref-reference (codes "a:5") (codes "b" ∷ codes "c" ∷ []) (codes "1")
      ((refl, (refl, (refl, tt))), ((refl, tt), ((refl, tt), tt))) (refl, tt)

abbrev facts : Facts
facts = record {
  current = some old_tag;
  next = new_tag;
  ref = some (codes "app:v0.1.19");
  exists = true;
  tag = new_tag;
}

decide-update_iff_example :
    (decide facts ≡ update old_tag new_tag)
    ↔ (IsPinned facts old_tag × (old_tag ≢ new_tag) × (new_tag ≡ new_tag) × IsAvailable facts)
decide-update_iff_example = decide-update_iff facts old_tag new_tag

decide-lagging_iff_example : (decide facts ≡ lagging (codes "late")) ↔ (
    (current : Text) × IsPinned facts current
    × (current ≢ new_tag)
    × IsUnpublished facts
    × (codes "late" ≡ behind new_tag (codes "app:v0.1.19") current))
decide-lagging_iff_example = decide-lagging_iff facts (codes "late")

decide-problem_iff_example : (decide facts ≡ problem moved) ↔ (
    (((current : Text) → ¬ IsPinned facts current) × (moved ≡ moved))
    ⊎ (IsPinned facts new_tag × IsUnpublished facts × (moved ≡ gone (codes "app:v0.1.19"))))
decide-problem_iff_example = decide-problem_iff facts moved

abbrev source : Text
source = codes "{\n  xray: \"26.1\",\n}"

abbrev written : Text
written = codes "{\n  xray: \"27\",\n}"

xray_IsKey : IsKey (codes "xray")
xray_IsKey = (refl, (refl, (refl, (refl, tt))))

next-Lacks : Lacks quote (codes "27")
next-Lacks = (refl, (refl, tt))

source_written : write_const source (codes "xray") (codes "27") ≡ some written
unfolding runs
source_written = refl

source_read : read_const source (codes "xray") ≡ some (codes "26.1")
unfolding runs
source_read = refl

read_const-write_const_example : read_const written (codes "xray") ≡ some (codes "27")
read_const-write_const_example =
    read_const-write_const source (codes "xray") (codes "27") written xray_IsKey next-Lacks
      source_written

write_const_replaces_example :
    ((read_const source (codes "xray") ≡ none)
      × (write_const source (codes "xray") (codes "27") ≡ none))
    ⊎ ((pre : Text) × (old : Text) × (post : Text) × (read_const source (codes "xray") ≡ some old)
        × (source ≡ pre ++ (old ++ post))
        × (write_const source (codes "xray") (codes "27") ≡ some (pre ++ (codes "27" ++ post))))
write_const_replaces_example = write_const_replaces source (codes "xray") (codes "27") xray_IsKey
