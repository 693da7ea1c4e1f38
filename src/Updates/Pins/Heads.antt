-- ===== src/Updates/Pins/Heads.antt =====
-- What the search for a pin of scripts/update-apps/versions.ts does at one place: the match of a
-- head and the value behind it.
use mathlib.Core.Path.{subst}
use jaritanet.Base.{
  ℕ, ◌≡◌, refl, ap, ◌∙◌, sym, Bool, true, false, none, some, [], ◌∷◌, ◌++◌, arith, Text, span,
}
use jaritanet.Base.Options.{>>=-eq-some}
use jaritanet.Base.Slices.{Lacks}
use jaritanet.Updates.Pins.{quote, not_quote, Head, Match, close, match_here, first_match}

pub span_sound : (p : ℕ → Bool) (s : Text) → s ≡ (span p s).0 ++ (span p s).1
unfolding span
span_sound p [] = refl
span_sound p (c ∷ s) = ground (arith, span_sound p s)

-- The rest begins with a unit that fails the test.
span_stops : (p : ℕ → Bool) (s : Text) (c : ℕ) (r : Text) → (span p s).1 ≡ c ∷ r → p c ≡ false
unfolding span
span_stops p [] c r e = cc
span_stops p (d ∷ s) c r e = ground (arith, span_stops p s c r)

-- A text up to the first quote.
span-value :
    (v after : Text) → Lacks quote v → span not_quote (v ++ quote ∷ after) ≡ (v, quote ∷ after)
unfolding span
span-value [] after h = refl
span-value (c ∷ v) after (p, h) = rw (p, span-value v after h)

span-Lacks : (s : Text) → Lacks quote (span not_quote s).0
unfolding span
span-Lacks [] = tt
span-Lacks (c ∷ s) = ground (arith, span-Lacks s)

-- A text with a match: where the value stands.
abbrev pub with_value : Match → Text → Text
with_value m value = m.pre ++ (m.before ++ (value ++ quote ∷ m.after))

-- What the heads have in common.
pub record IsLawful (head : Head) : Type 0 where
  pub sound : (s b r : Text) → head s ≡ some (b, r) → s ≡ b ++ r
  -- A head ends in the quote that opens the value.
  pub opens : (s b r : Text) → head s ≡ some (b, r) → (o : Text) × (b ≡ o ++ quote ∷ [])
  -- What a head matches does not depend on what follows.
  pub local : (s b r r' : Text) → head s ≡ some (b, r) → head (b ++ r') ≡ some (b, r')
  -- No match begins earlier because of the value behind a quote.
  pub steady :
      (x v w after : Text)
      → match_here head (x ++ quote ∷ (v ++ quote ∷ after)) ≡ none
      → match_here head (x ++ quote ∷ (w ++ quote ∷ after)) ≡ none

not_quote-false : (c : ℕ) → not_quote c ≡ false → c ≡ quote
not_quote-false c h = ground arith

close_sound :
    (before : Text) (p : Text × Text) (m : Match)
    → close before p ≡ some m
    → (m.pre ≡ []) × (m.before ≡ before) × ((q : ℕ) × (p ≡ (m.value, q ∷ m.after)))
unfolding close
close_sound before (value, []) m e = cc
close_sound before (value, q ∷ after) m e = (ground arith, ground arith, (q, ground arith))

module _ (head : Head) (law : IsLawful head) where
  match_here-close :
      (t b r : Text) → head t ≡ some (b, r) → match_here head t ≡ close b (span not_quote r)
  unfolding match_here
  match_here-close t b r e = rw (e, match_here)

  pub match_here_sound :
      (s : Text) (m : Match)
      → match_here head s ≡ some m
      → (m.pre ≡ [])
        × (s ≡ with_value m m.value)
        × Lacks quote m.value
        × ((o : Text) × (m.before ≡ o ++ quote ∷ []))
        × ((w : Text)
            → Lacks quote w
            → match_here head (with_value m w) ≡ some (record m { value = w }))
  unfolding match_here close
  match_here_sound s m e =
      let (p, h, closed) = >>=-eq-some (head s) (λ p. close p.0 (span not_quote p.1)) m e in
      let (no_pre, same, split') = close_sound p.0 (span not_quote p.1) m closed in
      let is_quote : split'.0 ≡ quote =
        not_quote-false split'.0
          (span_stops not_quote p.1 split'.0 m.after (ap (λ (t : Text × Text). t.1) split'.1)) in
      let rest : p.1 ≡ m.value ++ quote ∷ m.after =
        span_sound not_quote p.1
        ∙ ap (λ (t : Text × Text). t.0 ++ t.1) split'.1
        ∙ ap (λ u. m.value ++ u ∷ m.after) is_quote in
      let shape : (w : Text) → p.0 ++ (w ++ quote ∷ m.after) ≡ with_value m w = λ w.
        ap (λ u. u ++ (w ++ quote ∷ m.after)) (sym same)
        ∙ ap (λ u. u ++ (m.before ++ (w ++ quote ∷ m.after))) (sym no_pre) in
      let text : s ≡ with_value m m.value =
        law.sound s p.0 p.1 h ∙ ap (λ u. p.0 ++ u) rest ∙ shape m.value in
      let (o, opened) = law.opens s p.0 p.1 h in
      (
        no_pre,
        text,
        subst (λ (t : Text × Text). Lacks quote t.0) split'.1 (span-Lacks p.1),
        (o, same ∙ opened),
        λ w lacks.
            ap (match_here head) (sym (shape w))
            ∙ match_here-close (p.0 ++ (w ++ quote ∷ m.after)) p.0 (w ++ quote ∷ m.after)
                (law.local s p.0 p.1 (w ++ quote ∷ m.after) h)
            ∙ ap (close p.0) (span-value w m.after lacks)
            ∙ (λ i.
                some
                  (record { pre = sym no_pre i; before = sym same i; value = w; after = m.after })),
      )

  pub first_match_here :
      (t : Text) (m : Match) → match_here head t ≡ some m → first_match head true t ≡ some m
  unfolding first_match
  first_match_here [] m e = e
  first_match_here (c ∷ t) m e = rw (e, first_match)
