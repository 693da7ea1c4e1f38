-- ===== src/Updates/Run/Whole.antt =====
-- The whole run of scripts/update-apps/update-apps.ts.
use mathlib.Core.Path.{subst}
use jaritanet.Base.{
  ℕ, zero, suc, ◌≡◌, refl, sym, ap, ◌∙◌, true, false, some, List, [], ◌∷◌, ◌>>=◌, Bool-cases, inl,
  inr, length, arith,
}
use jaritanet.Base.Dicts.{Dict}
use jaritanet.Base.Options.{>>=-eq-some, some_injective}
use jaritanet.Updates.Run.{Tracked, git_config, git_pull, World, State, perform, perform_or_throw}
use jaritanet.Updates.Run.Step.{steps}
use jaritanet.Updates.Run.Finish.{attempt, push_with_rebase, record_run, prepare, conclude, run}
use jaritanet.Updates.Run.Written.{perform_or_throw-some}
use jaritanet.Updates.Run.Ledger.{commits, Balanced, Untouched, steps-Balanced, steps-Untouched}
use jaritanet.Updates.Run.Push.{after, push_with_rebase-cases}

-- Neither a commit nor a title was added.
abbrev Quiet : State → State → Type 0
Quiet s s' = (commits s'.history ≡ commits s.history) × (s'.titles ≡ s.titles)

Quiet-trans : (a b c : State) → Quiet a b → Quiet b c → Quiet a c
Quiet-trans a b c (p, q) (r, t) = (r ∙ p, t ∙ q)

module _ (w : World) where
  attempt-Quiet : (s : State) → Quiet s (attempt w s).1
  unfolding attempt perform commits
  attempt-Quiet s = elim (Bool-cases (w.succeeds s.history git_pull)) [
    | inl h ↦ rw h (refl, refl)
    | inr h ↦ rw h (refl, refl)
  ]

  after-Quiet : (k : ℕ) (s : State) → Quiet s (after w k s)
  after-Quiet zero s = (refl, refl)
  after-Quiet (suc k) s =
      Quiet-trans s (attempt w s).1 (after w (suc k) s) (attempt-Quiet s)
        (after-Quiet k (attempt w s).1)

  push-Quiet : (s s' : State) → push_with_rebase w s ≡ some s' → Quiet s s'
  push-Quiet s s' e = elim (push_with_rebase-cases w s) [
    | inl (e', _) ↦ absurd (cc (e, e'))
    | inr (k, _, _, e') ↦
        subst (Quiet s) (some_injective (after w (suc k) s) s' (sym e' ∙ e)) (after-Quiet (suc k) s)
  ]

  record-Quiet : (s s' : State) → record_run w s ≡ some s' → Quiet s s'
  unfolding record_run perform commits
  record-Quiet s s' e =
      let (s1, p, q) = >>=-eq-some (perform_or_throw w _ s) _ s' e in
      let first = perform_or_throw-some w _ s s1 p in
      let second = some_injective _ s' q in rw (← second, first) (refl, refl)

  conclude-Quiet : (s s' : State) → conclude w false s ≡ some s' → Quiet s s'
  unfolding conclude
  conclude-Quiet s s' e =
      (elim s.titles
          as (λ ts.
            (elim ts [
              | [] ↦ some s
              | ◌∷◌ title (titles → _) ↦ push_with_rebase w s >>= record_run w
            ])
              ≡ some s'
            → Quiet s s') [
              | [] ↦ λ k. subst (Quiet s) (some_injective s s' k) (refl, refl)
              | ◌∷◌ title (titles → _) ↦ λ k.
                  let (s1, p, q) = >>=-eq-some (push_with_rebase w s) _ s' k in
                  Quiet-trans s s1 s' (push-Quiet s s1 p) (record-Quiet s1 s' q)
            ])
        e

  prepare-Quiet : (s s' : State) → prepare w false s ≡ some s' → Quiet s s'
  unfolding prepare commits
  prepare-Quiet s s' e =
      let (s1, p, e1) = >>=-eq-some (perform_or_throw w git_config s) _ s' e in
      let (s2, q, e2) = >>=-eq-some (perform_or_throw w git_config s1) _ s' e1 in
      rw
        (
          perform_or_throw-some w _ s2 s' e2,
          perform_or_throw-some w _ s1 s2 q,
          perform_or_throw-some w _ s s1 p,
        )
        (refl, refl)

abbrev start : Dict → State
start disk = record {
  disk = disk;
  sources = [];
  failed = [];
  titles = [];
  details = [];
  history = [];
}

-- A run that ends without an exception has made one commit for each version that it reports as
-- updated.
pub run-commits :
    (w : World) (entries : List Tracked) (disk : Dict) (s : State)
    → run w false entries disk ≡ some s
    → commits s.history ≡ length s.titles
unfolding run commits
run-commits w entries disk s e =
    let (s1, p, e1) = >>=-eq-some (prepare w false (start disk)) _ s e in
    let (s2, q, e2) = >>=-eq-some (steps w false entries s1) _ s e1 in
    let (c, t) = prepare-Quiet w (start disk) s1 p in
    let (d, u) = conclude-Quiet w s2 s e2 in
    let balanced : Balanced s1 s2 = steps-Balanced w entries s1 s2 q in
    omega (arith, c, d, balanced, ap length t, ap length u)

-- A dry run that ends without an exception has written no file and run none of the commands that
-- change something: lookups aside, it has run no command.
pub run-dry :
    (w : World) (entries : List Tracked) (disk : Dict) (s : State)
    → run w true entries disk ≡ some s
    → (s.disk ≡ disk) × (s.history ≡ [])
unfolding run prepare conclude
run-dry w entries disk s e =
    let (s2, q, e2) = >>=-eq-some (steps w true entries (start disk)) _ s e in
    let untouched : Untouched (start disk) s2 = steps-Untouched w entries (start disk) s2 q in
    (elim s2.titles
        as (λ ts.
          (elim ts [ [] ↦ some s2 | ◌∷◌ title (titles → _) ↦ some s2 ]) ≡ some s
          → (s.disk ≡ disk) × (s.history ≡ [])) [
            | [] ↦ λ k. subst (Untouched (start disk)) (some_injective s2 s k) untouched
            | ◌∷◌ title (titles → _) ↦
                λ k. subst (Untouched (start disk)) (some_injective s2 s k) untouched
          ])
      e2
