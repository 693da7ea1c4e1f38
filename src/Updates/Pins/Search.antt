-- ===== src/Updates/Pins/Search.antt =====
-- The search for a pin of scripts/update-apps/versions.ts, for any head.
use mathlib.Core.Path.{subst}
use mathlib.Core.List.{append_assoc}
use jaritanet.Base.{
  ℕ, ◌≡◌, refl, ap, ◌∙◌, sym, Bool, true, false, Option, none, some, [], ◌∷◌, ◌++◌, if◌then◌else◌,
  ◌>>=◌, Text, is_newline, Option-cases, inl, inr,
}
use jaritanet.Base.Options.{some_injective, >>=-eq-some}
use jaritanet.Base.Slices.{Lacks}
use jaritanet.Updates.Pins.{
  quote, Head, Match, one_on, match_here, first_match, no_more, only_match, read, write,
}
use jaritanet.Updates.Pins.Heads.{IsLawful, with_value, match_here_sound, first_match_here}

no_more_sound : (m k : Match) (o : Option Match) → no_more m o ≡ some k → (o ≡ none) × (m ≡ k)
unfolding no_more
no_more_sound m k none e = (refl, some_injective m k e)
no_more_sound m k (some _) e = cc

module _ (head : Head) (law : IsLawful head) where
  -- The text around a match that the search found; another value without quotes in its place is
  -- found as well.
  abbrev pub Found : Bool → Text → Match → Type 0
  Found at_start s m =
      (s ≡ with_value m m.value)
      × Lacks quote m.value
      × ((o : Text) × (m.before ≡ o ++ quote ∷ []))
      × ((w : Text)
          → Lacks quote w
          → first_match head at_start (with_value m w) ≡ some (record m { value = w }))

  with_value_split :
      (m : Match) (o : Text)
      → m.before ≡ o ++ quote ∷ []
      → (w : Text) → with_value m w ≡ (m.pre ++ o) ++ quote ∷ (w ++ quote ∷ m.after)
  with_value_split m o e w = rw e (simp append_assoc)

  -- The text with another value does not match at its start either.
  still_missed :
      (c : ℕ) (s : Text) (m : Match)
      → s ≡ with_value m m.value
      → ((o : Text) × (m.before ≡ o ++ quote ∷ []))
      → match_here head (c ∷ s) ≡ none
      → (w : Text) → match_here head (c ∷ with_value m w) ≡ none
  still_missed c s m text (o, e) missed w =
      ap (λ t. match_here head (c ∷ t)) (with_value_split m o e w)
      ∙ law.steady (c ∷ (m.pre ++ o)) m.value w m.after
          (ap (λ t. match_here head (c ∷ t)) (sym (text ∙ with_value_split m o e m.value)) ∙ missed)

  Found-later :
      (at_start : Bool) (c : ℕ) (s : Text) (m : Match)
      → (if at_start then match_here head (c ∷ s) else none) ≡ none
      → Found (is_newline c) s m
      → Found at_start (c ∷ s) (one_on c m)
  unfolding first_match
  Found-later false c s m missed (text, lacks, o, other) =
      (ap (λ t. c ∷ t) text, lacks, o, λ w h. rw (other w h))
  Found-later true c s m missed (text, lacks, o, other) = (
    ap (λ t. c ∷ t) text,
    lacks,
    o,
    λ w h. rw (still_missed c s m text o missed w, first_match) (rw (other w h)),
  )

  later_Found :
      (at_start : Bool) (c : ℕ) (s : Text) (m : Match)
      → (if at_start then match_here head (c ∷ s) else none) ≡ none
      → ((m' : Match) → first_match head (is_newline c) s ≡ some m' → Found (is_newline c) s m')
      → first_match head at_start (c ∷ s) ≡ some m
      → Found at_start (c ∷ s) m
  unfolding first_match
  later_Found at_start c s m missed ih e =
      let (m', e', q) =
        >>=-eq-some (first_match head (is_newline c) s) (λ k. some (one_on c k)) m
          (rw (missed, first_match) at e) in
      subst (Found at_start (c ∷ s)) (some_injective (one_on c m') m q)
        (Found-later at_start c s m' missed (ih m' e'))

  here_Found : (s : Text) (m : Match) → match_here head s ≡ some m → Found true s m
  here_Found s m e =
      let (no_pre, text, lacks, o, other) = match_here_sound head law s m e in
      (text, lacks, o, λ w h. first_match_here head law (with_value m w) _ (other w h))

  nil_Found :
      (at_start : Bool) (m : Match) → first_match head at_start [] ≡ some m → Found at_start [] m
  unfolding first_match
  nil_Found false m e = cc
  nil_Found true m e = here_Found [] m e

  first_match_sound :
      (at_start : Bool) (s : Text) (m : Match)
      → first_match head at_start s ≡ some m
      → Found at_start s m
  first_match_sound at_start [] m e = nil_Found at_start m e
  first_match_sound false (c ∷ s) m e =
      later_Found false c s m refl (λ m' e'. first_match_sound (is_newline c) s m' e') e
  first_match_sound true (c ∷ s) m e =
      let ih = λ (m' : Match) (e' : first_match head (is_newline c) s ≡ some m').
        first_match_sound (is_newline c) s m' e' in
      elim (Option-cases (match_here head (c ∷ s))) [
        | inl missed ↦ later_Found true c s m missed ih e
        | inr (m', found) ↦
            here_Found (c ∷ s) m (found ∙ sym (first_match_here head law (c ∷ s) m' found) ∙ e)
      ]

  only_match_sound :
      (s : Text) (m : Match)
      → only_match head s ≡ some m
      → (s ≡ with_value m m.value)
        × ((w : Text)
            → Lacks quote w
            → only_match head (with_value m w) ≡ some (record m { value = w }))
  unfolding only_match
  only_match_sound s m e =
      let (m', e', q) =
        >>=-eq-some (first_match head true s) (λ k. no_more k (first_match head false k.after)) m
          e in
      let (alone, same) = no_more_sound m' m (first_match head false m'.after) q in
      let (text, lacks, o, other) = first_match_sound true s m (e' ∙ ap some same) in
      let alone' : first_match head false m.after ≡ none =
        ap (λ (k : Match). first_match head false k.after) (sym same) ∙ alone in
      (text, λ w h. rw (other w h) (rw alone'))

  -- What was written is read back, and only it has changed.
  pub read-write_head :
      (s w t : Text) → write head s w ≡ some t → Lacks quote w → read head t ≡ some w
  unfolding read write
  read-write_head s w t e h =
      let (m, only, q) = >>=-eq-some (only_match head s) (λ k. some (with_value k w)) t e in
      let (text, other) = only_match_sound s m only in
      rw (← some_injective (with_value m w) t q) (rw (other w h))

  pub write_head_changes :
      (s w t : Text)
      → write head s w ≡ some t
      → (pre : Text) × (v : Text) × (post : Text) × (read head s ≡ some v)
        × (s ≡ pre ++ (v ++ post))
        × (t ≡ pre ++ (w ++ post))
  unfolding read write
  write_head_changes s w t e =
      let (m, only, q) = >>=-eq-some (only_match head s) (λ k. some (with_value k w)) t e in
      let (text, other) = only_match_sound s m only in
      (
        m.pre ++ m.before,
        m.value,
        quote ∷ m.after,
        ap (λ o. o >>= λ (k : Match). some k.value) only,
        text ∙ sym (append_assoc m.pre m.before _),
        sym (some_injective (with_value m w) t q) ∙ sym (append_assoc m.pre m.before _),
      )

  pub write-write_head :
      (s v w t : Text)
      → read head s ≡ some v
      → write head s w ≡ some t
      → Lacks quote w
      → write head t v ≡ some s
  unfolding read write
  write-write_head s v w t r e h =
      let (m, only, q) = >>=-eq-some (only_match head s) (λ k. some (with_value k w)) t e in
      let (text, other) = only_match_sound s m only in
      let value : m.value ≡ v =
        some_injective m.value v (sym (ap (λ o. o >>= λ (k : Match). some k.value) only) ∙ r) in
      rw (← some_injective (with_value m w) t q)
        (rw (other w h) (rw (← value) (ap some (sym text))))
