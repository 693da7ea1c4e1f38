-- ===== src/Updates/Tests.antt =====
-- Runs of the functions of scripts/update-apps/versions.ts.
use jaritanet.Base.{
  ◌≡◌, refl, none, some, Text, codes, is_space, is_newline, strip_prefix, span, text_eq,
}
use jaritanet.Updates.Number.{finite, infinity, number}
use jaritanet.Updates.Compare.{below, above, compare_versions}
use jaritanet.Updates.Pick.{pick_latest_tag}
use jaritanet.Updates.Template.{apply_template}
use jaritanet.Updates.ImageRef.{parse_image_ref, verify_ref}
use jaritanet.Updates.Pins.{read_const, write_const, read_dependency, write_dependency}

unfoldable pub runs : Unit {0}
unfolding number compare_versions is_space is_newline strip_prefix span text_eq pick_latest_tag
    apply_template verify_ref parse_image_ref read_const write_const read_dependency
    write_dependency
runs = tt

number_runs :
    (number (codes "19") ≡ some (finite 19))
    × (number (codes "rc1") ≡ none)
    × (number (codes "0x1F") ≡ some (finite 31))
    × (number (codes "+1e3 ") ≡ some (finite 1000))
    × (number (codes "9007199254740993") ≡ some (finite 9007199254740992))
    × (number (codes "1e400") ≡ some infinity)
unfolding runs
number_runs = (refl, refl, refl, refl, refl, refl)

compare_runs :
    (compare_versions (codes "v0.1.19") (codes "v0.1.9") ≡ above)
    × (compare_versions (codes "traefik-34.5.0") (codes "34.5") ≡ above)
    × (compare_versions (codes "2") (codes "10") ≡ below)
    × (compare_versions (codes "10") (codes "1a") ≡ below)
    × (compare_versions (codes "1a") (codes "2") ≡ below)
unfolding runs
compare_runs = (refl, refl, refl, refl, refl)

abbrev pins : Text
pins =
    codes
      "export const VERSIONS = {\n  // hysteria\n  hysteria: \"v2.1\",\n\n  xray: \"26.1\",\n};\n"

pin_runs :
    (read_const pins (codes "xray") ≡ some (codes "26.1"))
    × (read_const pins (codes "ray") ≡ none)
    × (write_const pins (codes "hysteria") (codes "v3")
        ≡ some (
            codes
              "export const VERSIONS = {\n  // hysteria\n  hysteria: \"v3\",\n\n  xray: \"26.1\",\n};\n"))
    × (read_dependency (codes "{\n\"dependencies\": {\n  \"@a/b\": \"1.0\"\n}}") (codes "@a/b")
        ≡ some (codes "1.0"))
unfolding runs
pin_runs = (refl, refl, refl, refl)
