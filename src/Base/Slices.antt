-- ===== src/Base/Slices.antt =====
-- Splitting a text at a separator and joining it again, and finding the last separator.
use jaritanet.Base.Tests.{◌==◌, if◌then◌else◌}
use jaritanet.Base.Lists.{All}
use jaritanet.Base.Strings.{Text, split_first, split, join}
use Prim.Native.Nat.{ℕ}
use mathlib.Core.Path.{◌≡◌, refl, ap}
use mathlib.Core.Bool.{Bool, true, false}
use mathlib.Core.Option.{Option, none, some}
use mathlib.Core.List.{List, [], ◌∷◌, ◌++◌}
use native.Mathlib.Omega.{arith}

-- The text before the last occurrence of a unit, and the text behind it: `s.slice(0, i)` and
-- `s.slice(i + 1)` for `i = s.lastIndexOf(unit)`, where `i` is not -1.
unfoldable pub split_last : ℕ → Text → Option (Text × Text)
split_last u [] = none
split_last u (c ∷ s) = elim (split_last u s) [
  | some (before, after) ↦ some (c ∷ before, after)
  | none ↦ if c == u then some ([], s) else none
]

-- No unit of the text is `u`.
abbrev pub Lacks : ℕ → Text → Type 0
Lacks u = All (λ c. (c == u) ≡ false)

split_last-none : (u : ℕ) (s : Text) → Lacks u s → split_last u s ≡ none
unfolding split_last
split_last-none u [] h = refl
split_last-none u (c ∷ s) (p, h) = rw (split_last-none u s h, p)

pub split_last-append : (u : ℕ) (s t : Text) → Lacks u t → split_last u (s ++ u ∷ t) ≡ some (s, t)
unfolding split_last
split_last-append u [] t h = ground (arith, split_last-none u t h)
split_last-append u (c ∷ s) t h = rw (split_last-append u s t h)

split_first-last : (p : ℕ → Bool) (s : Text) → All (λ c. p c ≡ false) s → split_first p s ≡ (s, [])
unfolding split_first
split_first-last p [] h = refl
split_first-last p (c ∷ s) (q, h) = rw (q, split_first-last p s h)

pub split_first-append :
    (p : ℕ → Bool) (s : Text) (u : ℕ) (t : Text)
    → All (λ c. p c ≡ false) s
    → p u ≡ true
    → split_first p (s ++ u ∷ t) ≡ (s, split p t)
unfolding split_first split
split_first-append p [] u t h q = rw q
split_first-append p (c ∷ s) u t (r, h) q = rw (r, split_first-append p s u t h q)

module _ (p : ℕ → Bool) (u : ℕ) (q : p u ≡ true) where
  -- Splitting takes apart what was joined, if no part holds a separator.
  pub split-join :
      (s : Text) (ts : List Text)
      → All (λ t. All (λ c. p c ≡ false) t) (s ∷ ts)
      → split p (join (u ∷ []) (s ∷ ts)) ≡ s ∷ ts
  unfolding split join
  split-join s [] (h, _) = rw (split_first-last p s h)
  split-join s (t ∷ ts) (h, k) =
      rw (split_first-append p s u (join (u ∷ []) (t ∷ ts)) h q)
        (ap (λ r. s ∷ r) (split-join t ts k))
