-- ===== src/Base/Dicts.antt =====
-- Records and maps from texts to texts, as lists of entries.
use jaritanet.Base.{
  ◌≡◌, refl, ap, ◌∙◌, false, Option, none, some, List, [], ◌∷◌, if◌then◌else◌, Text, text_eq,
  text_eq_iff, text_eq_refl, Bool-cases, inl, inr,
}

-- `Record<string, string>`: a missing key reads as `undefined`.
abbrev pub Dict : Type 0
Dict = List (Text × Text)

unfoldable pub lookup {ℓ} : {A : Type ℓ} → Text → List (Text × A) → Option A
unfolding text_eq
lookup key [] = none
lookup key ((k, v) ∷ rest) = if text_eq k key then some v else lookup key rest

-- `map.set(key, value)`
unfoldable pub put {ℓ} : {A : Type ℓ} → Text → A → List (Text × A) → List (Text × A)
unfolding text_eq
put key value [] = (key, value) ∷ []
put key value ((k, v) ∷ rest) =
    let kept = (k, v) ∷ put key value rest in if text_eq k key then (key, value) ∷ rest else kept

pub lookup-put_same {ℓ} :
    {A : Type ℓ} (key : Text) (value : A) (d : List (Text × A))
    → lookup key (put key value d) ≡ some value
unfolding lookup put
lookup-put_same key value [] = rw text_eq_refl refl
lookup-put_same key value ((k, v) ∷ rest) = elim (Bool-cases (text_eq k key)) [
  | inl h ↦ rw (h, text_eq_refl) refl
  | inr h ↦ rw (h, lookup) (rw h (lookup-put_same key value rest))
]

pub lookup-put_other {ℓ} :
    {A : Type ℓ} (key other : Text) (value : A) (d : List (Text × A))
    → text_eq key other ≡ false
    → lookup other (put key value d) ≡ lookup other d
unfolding lookup put
lookup-put_other key other value [] n = rw n refl
lookup-put_other key other value ((k, v) ∷ rest) n = elim (Bool-cases (text_eq k key)) [
  | inl h ↦
      let apart : text_eq k other ≡ false =
        ap (λ t. text_eq t other) ((text_eq_iff k key).0 h) ∙ n in
      rw (h, n, apart) refl
  | inr h ↦ rw (h, lookup) (rw (lookup-put_other key other value rest n) refl)
]
