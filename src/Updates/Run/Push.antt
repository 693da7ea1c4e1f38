-- ===== src/Updates/Run/Push.antt =====
-- `pushWithRebase` of scripts/update-apps/update-apps.ts.
use jaritanet.Base.{
  ℕ, zero, suc, ◌<◌, ◌≡◌, refl, true, false, none, some, Bool-cases, inl, inr, ◌⊎◌, arith,
}
use jaritanet.Updates.Run.{World, State}
use jaritanet.Updates.Run.Finish.{attempt, push_attempts, push_with_rebase}

module _ (w : World) where
  -- The state after some attempts.
  abbrev pub after : ℕ → State → State
  after zero s = s
  after (suc k) s = after k (attempt w s).1

  -- The attempt with this number gets through, and none before it.
  abbrev pub IsFirst : ℕ → State → Type 0
  IsFirst k s =
      ((attempt w (after k s)).0 ≡ true) × ((j : ℕ) → j < k → (attempt w (after j s)).0 ≡ false)

  IsFirst-suc :
      (k : ℕ) (s : State) → (attempt w s).0 ≡ false → IsFirst k (attempt w s).1 → IsFirst (suc k) s
  IsFirst-suc k s f (h, n) = (h, λ j. earlier j)
    where
      earlier : (j : ℕ) → j < suc k → (attempt w (after j s)).0 ≡ false
      earlier zero l = f
      earlier (suc j) l = n j (omega arith)

  push_attempts-cases :
      (n : ℕ) (s : State)
      → ((push_attempts w n s ≡ none) × ((j : ℕ) → j < n → (attempt w (after j s)).0 ≡ false))
        ⊎ ((k : ℕ) × (k < n) × IsFirst k s × (push_attempts w n s ≡ some (after (suc k) s)))
  unfolding push_attempts
  push_attempts-cases zero s = inl (refl, λ j l. absurd (omega (arith, l)))
  push_attempts-cases (suc n) s = elim (Bool-cases (attempt w s).0) [
    | inl h ↦ inr (0, omega arith, (h, λ j l. absurd (omega (arith, l))), rw h refl)
    | inr h ↦ elim (push_attempts-cases n (attempt w s).1) [
      | inl (e, none_before) ↦ inl (rw h e, λ j. all_failed h none_before j)
      | inr (k, l, first, e) ↦ inr (suc k, omega (arith, l), IsFirst-suc k s h first, rw h e)
    ]
  ]
    where
      all_failed :
          (attempt w s).0 ≡ false
          → ((j : ℕ) → j < n → (attempt w (after j (attempt w s).1)).0 ≡ false)
          → (j : ℕ) → j < suc n
          → (attempt w (after j s)).0 ≡ false
      all_failed f h zero l = f
      all_failed f h (suc j) l = h j (omega arith)

  -- Three attempts, the first that gets through ending them: either it goes on from the state after
  -- that attempt, or all three fail and it throws.
  pub push_with_rebase-cases :
      (s : State)
      → ((push_with_rebase w s ≡ none) × ((j : ℕ) → j < 3 → (attempt w (after j s)).0 ≡ false))
        ⊎ ((k : ℕ) × (k < 3) × IsFirst k s × (push_with_rebase w s ≡ some (after (suc k) s)))
  unfolding push_with_rebase
  push_with_rebase-cases s = push_attempts-cases 3 s
