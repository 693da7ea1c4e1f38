-- ===== src/Updates/Run/Ledger.antt =====
-- What the run of scripts/update-apps/update-apps.ts commits and reports.
use jaritanet.Base.{
  ℕ, suc, ◌+◌, ◌≡◌, refl, sym, ap, ◌∙◌, true, false, some, List, [], ◌∷◌, ◌++◌, Text, inl, inr, ◌⊎◌,
  length, length-append, arith,
}
use jaritanet.Base.Dicts.{lookup, put}
use jaritanet.Base.Options.{>>=-eq-some, some_injective}
use jaritanet.Updates.Run.{
  Tracked, Target, const_target, dependency_target, Command, git_config, git_pull, git_push,
  create_issue, close_issue, git_commit, git_add, aube_install, write_file, World, State,
  target_file,
}
use jaritanet.Updates.Run.Step.{steps, step}
use jaritanet.Updates.Run.Written.{lock_commands}
use jaritanet.Updates.Run.Outcome.{
  Acted, stays, waits, breaks, reports, writes, Stepped, unreadable, decided, step-Stepped,
  source-some,
}

-- The commits among some commands.
unfoldable pub commits : List Command → ℕ
commits [] = 0
commits (git_commit message ∷ cs) = suc (commits cs)
commits (git_config ∷ cs) = commits cs
commits (git_pull ∷ cs) = commits cs
commits (git_push ∷ cs) = commits cs
commits (write_file path text ∷ cs) = commits cs
commits (git_add path ∷ cs) = commits cs
commits (aube_install ∷ cs) = commits cs
commits (create_issue title body ∷ cs) = commits cs
commits (close_issue ∷ cs) = commits cs

-- As many commits were added as titles.
abbrev pub Balanced : State → State → Type 0
Balanced s s' = commits s'.history + length s.titles ≡ commits s.history + length s'.titles

-- Nothing but memory and the report changed.
abbrev pub Untouched : State → State → Type 0
Untouched s s' = (s'.disk ≡ s.disk) × (s'.history ≡ s.history)

commits-lock :
    (w : World) (t : Target) (cs ds : List Command)
    → commits ((lock_commands w t ++ cs) ++ ds) ≡ commits (cs ++ ds)
unfolding commits
commits-lock w (const_target file key) cs ds = refl
commits-lock w (dependency_target manifest pkg) cs ds = refl

source-keeps :
    (w : World) (file text : Text) (s s1 : State)
    → (s1 ≡ s)
      ⊎ ((lookup (w.absolute file) s.disk ≡ some text)
          × (s1 ≡ record s { sources = put (w.absolute file) text s.sources }))
    → (s1.titles ≡ s.titles) × Untouched s s1
source-keeps w file text s s1 (inl e) = (
  ap (λ (x : State). x.titles) e,
  (ap (λ (x : State). x.disk) e, ap (λ (x : State). x.history) e),
)
source-keeps w file text s s1 (inr (_, e)) = (
  ap (λ (x : State). x.titles) e,
  (ap (λ (x : State). x.disk) e, ap (λ (x : State). x.history) e),
)

module _ (w : World) (entry : Tracked) where
  Acted-Balanced :
      {version text : Text} {s s' : State} {d : _}
      → Acted w false entry version text s d s'
      → Balanced s s'
  unfolding commits
  Acted-Balanced stays = refl
  Acted-Balanced waits = refl
  Acted-Balanced breaks = refl
  Acted-Balanced (reports e) = cc e
  Acted-Balanced {s = s} (writes {rewritten = new} _ _ _) =
      let path = w.absolute (target_file entry.target) in
      let locked =
        commits-lock w entry.target (git_add path ∷ write_file path new ∷ []) s.history in
      omega (arith, locked, length-append s.titles _)

  Acted-Untouched :
      {version text : Text} {s s' : State} {d : _}
      → Acted w true entry version text s d s'
      → Untouched s s'
  Acted-Untouched stays = (refl, refl)
  Acted-Untouched waits = (refl, refl)
  Acted-Untouched breaks = (refl, refl)
  Acted-Untouched (reports _) = (refl, refl)
  Acted-Untouched (writes e _ _) = cc e

  Stepped-Balanced : {s s' : State} → Stepped w false entry s s' → Balanced s s'
  Stepped-Balanced (unreadable _) = refl
  Stepped-Balanced {s = s} (decided {text = text} {s1 = s1} _ found _ a) =
      let (t, (_, h)) =
        source-keeps w (target_file entry.target) text s s1
          (source-some w (target_file entry.target) text s s1 found).1 in
      cc (Acted-Balanced a, t, h)

  Stepped-Untouched : {s s' : State} → Stepped w true entry s s' → Untouched s s'
  Stepped-Untouched (unreadable _) = (refl, refl)
  Stepped-Untouched {s = s} (decided {text = text} {s1 = s1} _ found _ a) =
      let (_, (d, h)) =
        source-keeps w (target_file entry.target) text s s1
          (source-some w (target_file entry.target) text s s1 found).1 in
      let (d', h') = Acted-Untouched a in (d' ∙ d, h' ∙ h)

pub steps-Balanced :
    (w : World) (entries : List Tracked) (s s' : State)
    → steps w false entries s ≡ some s'
    → Balanced s s'
unfolding steps
steps-Balanced w [] s s' e = cc (some_injective s s' e)
steps-Balanced w (entry ∷ entries) s s' e =
    let (s1, p, q) = >>=-eq-some (step w false entry s) _ s' e in
    let first : Balanced s s1 = Stepped-Balanced w entry (step-Stepped w false entry s s1 p) in
    omega (arith, first, steps-Balanced w entries s1 s' q)

pub steps-Untouched :
    (w : World) (entries : List Tracked) (s s' : State)
    → steps w true entries s ≡ some s'
    → Untouched s s'
unfolding steps
steps-Untouched w [] s s' e =
    let same = some_injective s s' e in
    (ap (λ (x : State). x.disk) (sym same), ap (λ (x : State). x.history) (sym same))
steps-Untouched w (entry ∷ entries) s s' e =
    let (s1, p, q) = >>=-eq-some (step w true entry s) _ s' e in
    let (d, h) = Stepped-Untouched w entry (step-Stepped w true entry s s1 p) in
    let (d', h') = steps-Untouched w entries s1 s' q in (d' ∙ d, h' ∙ h)
