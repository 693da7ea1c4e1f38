-- ===== src/Base/Lists.antt =====
-- Lists measured by native numbers, and predicates on lists that compute.
use Prim.Native.Nat.{ℕ, suc, ◌+◌}
use mathlib.Core.Path.{◌≡◌}
use mathlib.Core.Logic.{◌⊎◌, inl, inr}
use mathlib.Core.Bool.{Bool, false, ◌||◌}
use mathlib.Core.Option.{Option, none, some}
use mathlib.Core.List.{List, [], ◌∷◌, ◌++◌, map}
use native.Mathlib.Omega.{arith}
use jaritanet.Base.Tests.{if◌then◌else◌}

module _ {ℓ} {A : Type ℓ} where
  abbrev pub length : List A → ℕ
  length [] = 0
  length (x ∷ xs) = suc (length xs)

  pub length-append : (xs ys : List A) → length (xs ++ ys) ≡ length xs + length ys
  length-append [] ys = omega arith
  length-append (x ∷ xs) ys = omega (arith, length-append xs ys)

  abbrev pub last? : List A → Option A
  last? [] = none
  last? (x ∷ []) = some x
  last? (x ∷ y ∷ xs) = last? (y ∷ xs)

  -- `xs.filter(p)`, `xs.some(p)`, `xs.find(p)`
  unfoldable pub filter : (A → Bool) → List A → List A
  filter p [] = []
  filter p (x ∷ xs) = let rest = filter p xs in if p x then x ∷ rest else rest

  unfoldable pub any : (A → Bool) → List A → Bool
  any p [] = false
  any p (x ∷ xs) = p x || any p xs

  unfoldable pub find? : (A → Bool) → List A → Option A
  find? p [] = none
  find? p (x ∷ xs) = if p x then some x else find? p xs

  -- `x` is an entry of the list.
  pub data In (x : A) : List A → Type ℓ where
    here : {xs : List A} → In x (x ∷ xs)
    there : {y : A} {xs : List A} → In x xs → In x (y ∷ xs)

  pub In-append_left : {x : A} {xs : List A} (ys : List A) → In x xs → In x (xs ++ ys)
  In-append_left ys here = here
  In-append_left ys (there m) = there (In-append_left ys m)

  pub In-append_right : {x : A} (xs : List A) {ys : List A} → In x ys → In x (xs ++ ys)
  In-append_right [] m = m
  In-append_right (y ∷ xs) m = there (In-append_right xs m)

  pub In-append : {x : A} (xs : List A) {ys : List A} → In x (xs ++ ys) → In x xs ⊎ In x ys
  In-append [] m = inr m
  In-append (y ∷ xs) here = inl here
  In-append (y ∷ xs) (there m) = elim (In-append xs m) [ inl h ↦ inl (there h) | inr h ↦ inr h ]

module _ {ℓ κ} {A : Type ℓ} (P : A → Type κ) where
  abbrev pub All : List A → Type κ
  All [] = Unit
  All (x ∷ xs) = P x × All xs

  pub All-append : (xs ys : List A) → All xs → All ys → All (xs ++ ys)
  All-append [] ys _ k = k
  All-append (x ∷ xs) ys (p, h) k = (p, All-append xs ys h k)

  pub All-In : (xs : List A) {x : A} → All xs → In x xs → P x
  All-In [] h m = elim m [ ]
  All-In (y ∷ ys) h here = h.0
  All-In (y ∷ ys) h (there m) = All-In ys h.1 m

  pub All_of_In : (xs : List A) → ((x : A) → In x xs → P x) → All xs
  All_of_In [] h = tt
  All_of_In (x ∷ xs) h = (h x here, All_of_In xs (λ y m. h y (there m)))

pub All_map {ℓ κ μ} :
    {A : Type ℓ} {P : A → Type κ} {Q : A → Type μ} (xs : List A)
    → ((x : A) → P x → Q x)
    → All P xs
    → All Q xs
All_map [] f h = tt
All_map (x ∷ xs) f (p, h) = (f x p, All_map xs f h)

pub In-map {ℓ κ} :
    {A : Type ℓ} {B : Type κ} (f : A → B) {x : A} {xs : List A} → In x xs → In (f x) (map f xs)
In-map f here = here
In-map f (there m) = there (In-map f m)

-- `xs.flatMap(f)`
unfoldable pub flat_map {ℓ κ} : {A : Type ℓ} {B : Type κ} → (A → List B) → List A → List B
flat_map f [] = []
flat_map f (x ∷ xs) = f x ++ flat_map f xs

pub In-flat_map {ℓ κ} :
    {A : Type ℓ} {B : Type κ} (f : A → List B) {x : A} {y : B} {xs : List A}
    → In x xs
    → In y (f x)
    → In y (flat_map f xs)
unfolding flat_map
In-flat_map f {xs = []} h m = elim h [ ]
In-flat_map f {xs = x ∷ xs} here m = In-append_left _ m
In-flat_map f {xs = x ∷ xs} (there h) m = In-append_right (f x) (In-flat_map f h m)
