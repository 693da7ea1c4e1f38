-- ===== src/Cluster/Minors.antt =====
-- The minor of a decorated version, packages/hetzner/src/compat.ts.
use jaritanet.Base.{
  ℕ, ◌+◌, ◌*◌, ◌≡◌, ◌≢◌, refl, ap, ◌∙◌, true, false, none, some, [], ◌∷◌, ◌++◌, Text, span,
  is_digit, is_truthy, All,
}
use jaritanet.Base.Decimal.{digits_value}
use jaritanet.Cluster.{Minor, minor_here, minor_behind, minor_of}

abbrev pub AreDigits : Text → Type 0
AreDigits s = All (λ c. is_digit c ≡ true) s

abbrev pub LacksDigits : Text → Type 0
LacksDigits s = All (λ c. is_digit c ≡ false) s

-- What follows the minor does not begin with a digit.
abbrev pub EndsNumber : Text → Type 0
EndsNumber [] = Unit
EndsNumber (c ∷ s) = is_digit c ≡ false

span-end : (r : Text) → EndsNumber r → span is_digit r ≡ ([], r)
unfolding span
span-end [] h = refl
span-end (c ∷ r) h = rw h refl

span-digits : (s r : Text) → AreDigits s → EndsNumber r → span is_digit (s ++ r) ≡ (s, r)
unfolding span
span-digits [] r h e = span-end r e
span-digits (c ∷ s) r (p, h) e = rw (p, span-digits s r h e) refl

minor_here-number :
    (major minor rest : Text)
    → major ≢ []
    → minor ≢ []
    → AreDigits major
    → AreDigits minor
    → EndsNumber rest
    → minor_here (major ++ b'.' ∷ (minor ++ rest))
      ≡ some (record {
        key = major ++ b'.' ∷ minor;
        ord = digits_value major * 1000 + digits_value minor;
      })
unfolding minor_here minor_behind is_truthy
minor_here-number [] minor rest m n p q e = absurd (m refl)
minor_here-number major [] rest m n p q e = absurd (n refl)
minor_here-number (c ∷ s) (d ∷ t) rest m n p q e =
    rw (span-digits (c ∷ s) (b'.' ∷ ((d ∷ t) ++ rest)) p refl, minor_here)
      (rw (span-digits (d ∷ t) rest q e) refl)

no_minor_here : (c : ℕ) (s : Text) → is_digit c ≡ false → minor_here (c ∷ s) ≡ none
unfolding minor_here span is_truthy
no_minor_here c s h = rw h refl

minor_of-here :
    (c : ℕ) (s : Text) (m : Minor) → minor_here (c ∷ s) ≡ some m → minor_of (c ∷ s) ≡ some m
unfolding minor_of
minor_of-here c s m e = ap (λ o. elim o [ some k ↦ some k | none ↦ minor_of s ]) e

minor_of-skip : (c : ℕ) (s : Text) → is_digit c ≡ false → minor_of (c ∷ s) ≡ minor_of s
unfolding minor_of
minor_of-skip c s h = ap (λ o. elim o [ some k ↦ some k | none ↦ minor_of s ]) (no_minor_here c s h)

-- Decoration in front of two components of digits, without digits itself, and behind them, not
-- beginning with a digit, does not change the minor that is read.
pub minor_of-decorated :
    (prefix major minor rest : Text)
    → LacksDigits prefix
    → major ≢ []
    → minor ≢ []
    → AreDigits major
    → AreDigits minor
    → EndsNumber rest
    → minor_of (prefix ++ (major ++ b'.' ∷ (minor ++ rest)))
      ≡ some (record {
        key = major ++ b'.' ∷ minor;
        ord = digits_value major * 1000 + digits_value minor;
      })
minor_of-decorated [] [] minor rest l m n p q e = absurd (m refl)
minor_of-decorated [] (c ∷ s) minor rest l m n p q e =
    minor_of-here c (s ++ b'.' ∷ (minor ++ rest)) _ (minor_here-number (c ∷ s) minor rest m n p q e)
minor_of-decorated (c ∷ prefix) major minor rest (l, ls) m n p q e =
    minor_of-skip c (prefix ++ (major ++ b'.' ∷ (minor ++ rest))) l
    ∙ minor_of-decorated prefix major minor rest ls m n p q e
