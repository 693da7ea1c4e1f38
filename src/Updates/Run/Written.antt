-- ===== src/Updates/Run/Written.antt =====
-- What a bump of scripts/update-apps/update-apps.ts does to the files and the report.
use mathlib.Core.List.{append_assoc}
use jaritanet.Base.{◌≡◌, refl, some, List, [], ◌∷◌, ◌++◌, Text, codes, Bool-cases, inl, inr}
use jaritanet.Base.Dicts.{put}
use jaritanet.Base.Options.{>>=-eq-some}
use jaritanet.Updates.Run.{
  Target, const_target, dependency_target, Tracked, Command, write_file, git_add, aube_install,
  git_commit, World, State, perform, perform_or_throw, target_file,
}
use jaritanet.Updates.Run.Step.{lock, commit}

-- The commands of a bump, the last one first.
abbrev pub lock_commands : World → Target → List Command
lock_commands w (const_target file key) = []
lock_commands w (dependency_target manifest pkg) =
    git_add (w.absolute (codes "aube-lock.yaml")) ∷ aube_install ∷ []

abbrev pub message : Tracked → Text → Text
message entry to = codes "chore: update " ++ (entry.app ++ (codes " to " ++ to))

abbrev pub bump_commands : World → Tracked → Text → Text → List Command
bump_commands w entry to text =
    git_commit (message entry to)
    ∷ (lock_commands w entry.target
        ++ (git_add (w.absolute (target_file entry.target))
            ∷ write_file (w.absolute (target_file entry.target)) text
            ∷ []))

module _ (w : World) where
  pub perform_or_throw-some :
      (c : Command) (s s' : State)
      → perform_or_throw w c s ≡ some s'
      → s' ≡ record s { history = c ∷ s.history }
  unfolding perform_or_throw perform
  perform_or_throw-some c s s' e = elim (Bool-cases (w.succeeds s.history c)) [
    | inl h ↦ cc (rw h at e)
    | inr h ↦ cc (rw h at e)
  ]

  lock-some :
      (t : Target) (s s' : State)
      → lock w t s ≡ some s'
      → s' ≡ record s { history = lock_commands w t ++ s.history }
  unfolding lock
  lock-some (const_target file key) s s' e = cc
  lock-some (dependency_target manifest pkg) s s' e =
      let (s1, p, q) = >>=-eq-some (perform_or_throw w aube_install s) _ s' e in
      rw (perform_or_throw-some _ s1 s' q, perform_or_throw-some _ s s1 p) refl

  abbrev pub bumped : Tracked → Text → Text → State → State
  bumped entry to text s = record s {
    disk = put (w.absolute (target_file entry.target)) text s.disk;
    sources = put (w.absolute (target_file entry.target)) text s.sources;
    history = bump_commands w entry to text ++ s.history;
  }

  pub commit-some :
      (entry : Tracked) (to text : Text) (s s' : State)
      → commit w entry to text s ≡ some s'
      → s' ≡ bumped entry to text s
  unfolding commit
  commit-some entry to text s s' e =
      let path = w.absolute (target_file entry.target) in
      let kept : State = record s { sources = put path text s.sources } in
      let (s1, p1, e1) = >>=-eq-some (perform_or_throw w (write_file path text) kept) _ s' e in
      let on_disk : State = record s1 { disk = put path text s1.disk } in
      let (s2, p2, e2) = >>=-eq-some (perform_or_throw w (git_add path) on_disk) _ s' e1 in
      let (s3, p3, e3) = >>=-eq-some (lock w entry.target s2) _ s' e2 in
      rw
        (
          perform_or_throw-some _ s3 s' e3,
          lock-some entry.target s2 s3 p3,
          perform_or_throw-some _ on_disk s2 p2,
          perform_or_throw-some _ kept s1 p1,
          append_assoc,
        )
        refl
