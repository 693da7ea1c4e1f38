-- ===== src/Updates/Order.antt =====
-- The order that `compareVersions` of scripts/update-apps/versions.ts puts versions in.
use jaritanet.Base.{
  ℕ, ◌<◌, ◌^◌, ◌≡◌, ◌≢◌, refl, true, not, ◌&&◌, Option, none, some, List, [], ◌∷◌, arith, ltb,
  if◌then◌else◌, Text, text_eq, text_eq_iff, is_digit, All, map,
}
use jaritanet.Base.Decimal.{digits_value}
use jaritanet.Updates.Number.{Numeral, finite, infinity}
use jaritanet.Updates.Number.Decimals.{number-digits}
use jaritanet.Updates.Compare.{
  Sign, below, same, above, flip, continue, compare_numbers, text_lt, compare_texts, numeric,
  compare_part, compare_parts, parts, compare_versions,
}

text_lt-asymm : (a b : Text) → text_lt b a ≡ (not (text_lt a b) && not (text_eq a b))
unfolding text_lt text_eq
text_lt-asymm [] [] = refl
text_lt-asymm [] (b ∷ t) = refl
text_lt-asymm (a ∷ s) [] = refl
text_lt-asymm (a ∷ s) (b ∷ t) = ground (arith, text_lt-asymm s t)

compare_texts-flip : (a b : Text) → compare_texts b a ≡ flip (compare_texts a b)
unfolding compare_texts
compare_texts-flip a b = ground (arith, text_lt-asymm a b, text_eq_iff a b, text_eq_iff b a)

compare_numbers-flip : (m n : Numeral) → compare_numbers n m ≡ flip (compare_numbers m n)
unfolding compare_numbers
compare_numbers-flip (finite m) (finite n) = ground arith
compare_numbers-flip (finite m) infinity = refl
compare_numbers-flip infinity (finite n) = refl
compare_numbers-flip infinity infinity = refl

compare_part-flip : (a b : Text) → compare_part b a ≡ flip (compare_part a b)
unfolding compare_part
compare_part-flip a b = go (numeric a) (numeric b)
  where
    go :
        (m n : Option Numeral)
        → (elim n [
          | none ↦ compare_texts b a
          | some i ↦ elim m [ none ↦ compare_texts b a | some j ↦ compare_numbers i j ]
        ])
          ≡ flip (elim m [
            | none ↦ compare_texts a b
            | some j ↦ elim n [ none ↦ compare_texts a b | some i ↦ compare_numbers j i ]
          ])
    go none none = compare_texts-flip a b
    go none (some i) = compare_texts-flip a b
    go (some j) none = compare_texts-flip a b
    go (some j) (some i) = compare_numbers-flip j i

flip-continue : (s t : Sign) → flip (continue s t) ≡ continue (flip s) (flip t)
flip-continue below t = refl
flip-continue same t = refl
flip-continue above t = refl

compare_parts-flip : (as' bs : List Text) → compare_parts bs as' ≡ flip (compare_parts as' bs)
unfolding compare_parts
compare_parts-flip [] [] = refl
compare_parts-flip [] (b ∷ bs) = cc (
  compare_part-flip [] b,
  compare_parts-flip [] bs,
  flip-continue (compare_part [] b) (compare_parts [] bs),
)
compare_parts-flip (a ∷ as') [] = cc (
  compare_part-flip a [],
  compare_parts-flip as' [],
  flip-continue (compare_part a []) (compare_parts as' []),
)
compare_parts-flip (a ∷ as') (b ∷ bs) = cc (
  compare_part-flip a b,
  compare_parts-flip as' bs,
  flip-continue (compare_part a b) (compare_parts as' bs),
)

-- Whatever the two tags, comparing them the other way round turns the sign.
pub compare_versions-flip : (a b : Text) → compare_versions b a ≡ flip (compare_versions a b)
unfolding compare_versions
compare_versions-flip a b = compare_parts-flip (parts a) (parts b)

-- A part that is a plain number, which a double holds exactly.
pub record IsSegment (part : Text) : Type 0 where
  pub written : part ≢ []
  pub decimal : All (λ c. is_digit c ≡ true) part
  pub exact : digits_value part < 2 ^ 53

-- A tag that numbers its release, like `v3.2.1` or `traefik-34.5.0`.
abbrev pub IsRelease : Text → Type 0
IsRelease tag = All IsSegment (parts tag)

-- The numbers of a release, and their order: by the first difference, a missing one first.
pub key : Text → List ℕ
key tag = map digits_value (parts tag)

unfoldable pub lex : List ℕ → List ℕ → Sign
lex [] [] = same
lex [] (n ∷ ns) = below
lex (m ∷ ms) [] = above
lex (m ∷ ms) (n ∷ ns) = if ltb m n then below else if ltb n m then above else lex ms ns

numeric-digits : (s : Text) → IsSegment s → numeric s ≡ some (finite (digits_value s))
unfolding numeric
numeric-digits [] h = absurd (h.written refl)
numeric-digits (c ∷ s) h = number-digits (c ∷ s) h.written h.decimal h.exact

compare_part-digits :
    (a b : Text)
    → IsSegment a
    → IsSegment b
    → compare_part a b ≡ compare_numbers (finite (digits_value a)) (finite (digits_value b))
unfolding compare_part
compare_part-digits a b h k = rw (numeric-digits a h, numeric-digits b k, compare_part)

compare_part-missing : (b : Text) → IsSegment b → compare_part [] b ≡ below
unfolding compare_part numeric text_lt
compare_part-missing [] h = absurd (h.written refl)
compare_part-missing (c ∷ s) h = refl

compare_parts-eq-lex :
    (as' bs : List Text)
    → All IsSegment as'
    → All IsSegment bs
    → compare_parts as' bs ≡ lex (map digits_value as') (map digits_value bs)
unfolding compare_parts compare_numbers lex
compare_parts-eq-lex [] [] h k = refl
compare_parts-eq-lex [] (b ∷ bs) h (q, k) = rw (compare_part-missing b q)
compare_parts-eq-lex (a ∷ as') [] (p, h) k = rw (compare_part-flip [] a, compare_part-missing a p)
compare_parts-eq-lex (a ∷ as') (b ∷ bs) (p, h) (q, k) =
    rw (compare_part-digits a b p q, compare_parts-eq-lex as' bs h k) (ground arith)

-- On releases, whose parts are plain numbers below 2 ^ 53, the comparison is the order of their
-- numbers: `0.1.19` is above `0.1.9`.
pub compare_versions-eq-lex :
    (a b : Text) → IsRelease a → IsRelease b → compare_versions a b ≡ lex (key a) (key b)
unfolding compare_versions key
compare_versions-eq-lex a b h k = compare_parts-eq-lex (parts a) (parts b) h k
