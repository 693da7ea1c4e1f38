-- ===== src/Updates/Template.antt =====
-- `applyTemplate` of scripts/update-apps/versions.ts: `template.replaceAll("{version}", version)`,
-- where `$` in the replacement is JavaScript's substitution syntax.
use jaritanet.Base.{
  ℕ, zero, suc, ◌≡◌, refl, ap, false, none, some, [], ◌∷◌, ◌++◌, arith, ◌==◌, if◌then◌else◌, Text,
  codes, strip_prefix, strip_prefix-append,
}
use jaritanet.Base.Slices.{Lacks}

abbrev pub placeholder : Text
placeholder = codes "{version}"

-- `$$`, `$&`, `` $` `` and `$'`; any other `$` stands for itself, since the pattern has no groups.
substitute : Text → Text → Text → Text
substitute before after [] = []
substitute before after (c ∷ []) = c ∷ []
substitute before after (c ∷ d ∷ s) =
    let rest = substitute before after s in
    let next = substitute before after (d ∷ s) in
    if c == b'$'
    then (if d == b'$'
        then b'$' ∷ rest
        else if d == b'&'
        then placeholder ++ rest
        else if d == 0x60
        then before ++ rest
        else if d == 0x27
        then after ++ rest
        else c ∷ next)
    else c ∷ next

-- From left to right, with the text that was read and the units of a match still to skip.
replace_from : Text → Text → ℕ → Text → Text
replace_from version before k [] = []
replace_from version before (suc k) (c ∷ s) = replace_from version (before ++ c ∷ []) k s
replace_from version before zero (c ∷ s) = elim (strip_prefix placeholder (c ∷ s)) [
  | none ↦ c ∷ replace_from version (before ++ c ∷ []) zero s
  | some after ↦ substitute before after version ++ replace_from version (before ++ c ∷ []) 8 s
]

unfoldable pub apply_template : Text → Text → Text
unfolding replace_from substitute strip_prefix
apply_template template version = replace_from version [] zero template

substitute_plain : (before after s : Text) → Lacks b'$' s → substitute before after s ≡ s
unfolding substitute
substitute_plain before after [] h = refl
substitute_plain before after (c ∷ []) h = refl
substitute_plain before after (c ∷ d ∷ s) (p, h) = rw (p, substitute_plain before after (d ∷ s) h)

no_match : (c : ℕ) (s : Text) → (c == b'{') ≡ false → strip_prefix placeholder (c ∷ s) ≡ none
unfolding strip_prefix
no_match c s h = ground arith

replace_from-plain :
    (version before s : Text) → Lacks b'{' s → replace_from version before zero s ≡ s
unfolding replace_from
replace_from-plain version before [] h = refl
replace_from-plain version before (c ∷ s) (p, h) =
    rw (no_match c s p, replace_from, replace_from-plain version (before ++ c ∷ []) s h)

replace_from-match :
    (version before post : Text)
    → Lacks b'$' version
    → Lacks b'{' post
    → replace_from version before zero (placeholder ++ post) ≡ version ++ post
unfolding replace_from
replace_from-match version before post h k =
    rw (strip_prefix-append placeholder post, replace_from)
      (rw (substitute_plain before post version h)
        (ap (λ t. version ++ t) (replace_from-plain version _ post k)))

replace_from-before :
    (version before pre post : Text)
    → Lacks b'{' pre
    → Lacks b'$' version
    → Lacks b'{' post
    → replace_from version before zero (pre ++ (placeholder ++ post)) ≡ pre ++ (version ++ post)
unfolding replace_from
replace_from-before version before [] post h v k = replace_from-match version before post v k
replace_from-before version before (c ∷ pre) post (p, h) v k = rw (
  no_match c (pre ++ (placeholder ++ post)) p,
  replace_from,
  replace_from-before version (before ++ c ∷ []) pre post h v k,
)

-- A template with one placeholder and no other opening brace, for a version without `$`: the version stands in its place and
-- all else is kept.
pub apply_template_once :
    (pre post version : Text)
    → Lacks b'{' pre
    → Lacks b'{' post
    → Lacks b'$' version
    → apply_template (pre ++ (placeholder ++ post)) version ≡ pre ++ (version ++ post)
unfolding apply_template
apply_template_once pre post version h k v = replace_from-before version [] pre post h v k
