-- ===== src/Base/Options.antt =====
-- What an equation of optional values says, and one of lists that are not empty.
use mathlib.Core.Path.{◌≡◌, refl}
use mathlib.Core.Option.{Option, none, some}
use mathlib.Core.List.{List, ◌∷◌}
use jaritanet.Base.Tests.{◌>>=◌}

pub some_injective {ℓ} : {A : Type ℓ} (a b : A) → some a ≡ some b → a ≡ b
some_injective a b e = cc

pub >>=-eq-some {ℓ κ} :
    {A : Type ℓ} {B : Type κ} (o : Option A) (f : A → Option B) (b : B)
    → (o >>= f) ≡ some b
    → (a : A) × (o ≡ some a) × (f a ≡ some b)
>>=-eq-some none f b e = cc
>>=-eq-some (some a) f b e = (a, refl, e)

pub head_eq {ℓ} : {A : Type ℓ} {a b : A} {s t : List A} → a ∷ s ≡ b ∷ t → a ≡ b
head_eq h = cc

pub tail_eq {ℓ} : {A : Type ℓ} {a b : A} {s t : List A} → a ∷ s ≡ b ∷ t → s ≡ t
tail_eq h = cc
