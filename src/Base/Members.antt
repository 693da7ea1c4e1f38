-- ===== src/Base/Members.antt =====
-- The entries of a mapped and of a filtered list.
use mathlib.Core.Path.{subst}
use mathlib.Core.List.{append_assoc}
use jaritanet.Base.{
  ◌≡◌, refl, Bool, true, false, List, [], ◌∷◌, map, ◌++◌, flat_map, In-append, if◌then◌else◌,
  filter, In, here, there, Bool-cases, inl, inr, ◌⊎◌, ap, sym, ◌∙◌,
}

pub In_of_map {ℓ κ} :
    {A : Type ℓ} {B : Type κ} (f : A → B) (xs : List A) {y : B}
    → In y (map f xs)
    → (x : A) × In x xs × (f x ≡ y)
In_of_map f [] m = elim m [ ]
In_of_map f (x ∷ xs) here = (x, here, refl)
In_of_map f (x ∷ xs) (there m) = let (z, n, e) = In_of_map f xs m in (z, there n, e)

pub In_uncons {ℓ} : {A : Type ℓ} {x y : A} {ys : List A} → In x (y ∷ ys) → (y ≡ x) ⊎ In x ys
In_uncons here = inl refl
In_uncons (there m) = inr m

module _ {ℓ} {A : Type ℓ} (p : A → Bool) where
  pub In-filter : (xs : List A) {x : A} → In x xs → p x ≡ true → In x (filter p xs)
  unfolding filter
  In-filter [] m h = elim m [ ]
  In-filter (x ∷ xs) here h = rw h here
  In-filter (y ∷ xs) (there m) h = elim (Bool-cases (p y)) [
    | inl e ↦ rw e (there (In-filter xs m h))
    | inr e ↦ rw e (In-filter xs m h)
  ]

  pub In_of_filter : (xs : List A) {x : A} → In x (filter p xs) → In x xs × (p x ≡ true)
  unfolding filter
  In_of_filter [] m = elim m [ ]
  In_of_filter (y ∷ xs) {x = x} m =
      (elim (p y)
          as (λ b.
            p y ≡ b
            → In x (if b then y ∷ filter p xs else filter p xs)
            → In x (y ∷ xs) × (p x ≡ true)) [
              | true ↦ λ e n. elim (In_uncons n) [
                | inl same ↦ (subst (λ z. In z (y ∷ xs)) same here, ap p (sym same) ∙ e)
                | inr k ↦ let (l, h) = In_of_filter xs k in (there l, h)
              ]
              | false ↦ λ e n. let (k, h) = In_of_filter xs n in (there k, h)
            ])
        refl m

pub flat_map-append {ℓ κ} :
    {A : Type ℓ} {B : Type κ} (f : A → List B) (xs ys : List A)
    → flat_map f (xs ++ ys) ≡ flat_map f xs ++ flat_map f ys
unfolding flat_map
flat_map-append f [] ys = refl
flat_map-append f (x ∷ xs) ys =
    ap (λ zs. f x ++ zs) (flat_map-append f xs ys)
    ∙ sym (append_assoc (f x) (flat_map f xs) (flat_map f ys))

pub In_of_flat_map {ℓ κ} :
    {A : Type ℓ} {B : Type κ} (f : A → List B) (xs : List A) {y : B}
    → In y (flat_map f xs)
    → (x : A) × In x xs × In y (f x)
unfolding flat_map
In_of_flat_map f [] m = elim m [ ]
In_of_flat_map f (x ∷ xs) m = elim (In-append (f x) m) [
  | inl h ↦ (x, here, h)
  | inr h ↦ let (z, n, k) = In_of_flat_map f xs h in (z, there n, k)
]
