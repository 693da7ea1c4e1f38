-- ===== src/Updates/Run/Finish.antt =====
-- The end of the run: pushing, recording, and the whole of scripts/update-apps/update-apps.ts.
use jaritanet.Base.{
  ℕ, zero, suc, Bool, Option, none, some, List, [], ◌∷◌, ◌++◌, ltb, if◌then◌else◌, ◌>>=◌, Text,
  codes, join, length,
}
use jaritanet.Base.Decimal.{decimal}
use jaritanet.Base.Dicts.{Dict}
use jaritanet.Updates.Run.{
  Tracked, git_config, git_pull, git_push, create_issue, close_issue, World, State, perform,
  perform_or_throw,
}
use jaritanet.Updates.Run.Step.{steps}

-- The title of the issue that records a run: the list of what moved, unless it is long.
unfoldable pub issue_title : List Text → Text
unfolding join decimal
issue_title titles =
    let listed = codes "Updated " ++ join (codes ", ") titles in
    if ltb 200 (length listed)
    then codes "Updated " ++ (decimal (length titles) ++ codes " versions")
    else listed

module _ (w : World) where
  -- One attempt; whether it got through.
  unfoldable pub attempt : State → Bool × State
  unfolding perform
  attempt s =
      let pulled = perform w git_pull s in if pulled.0 then perform w git_push pulled.1 else pulled

  -- The loop over the attempts that are left; the last one that fails throws.
  unfoldable pub push_attempts : ℕ → State → Option State
  unfolding attempt
  push_attempts zero s = none
  push_attempts (suc left) s =
      let tried = attempt s in
      let again = push_attempts left tried.1 in if tried.0 then some tried.1 else again

  unfoldable pub push_with_rebase : State → Option State
  unfolding push_attempts
  push_with_rebase s = push_attempts 3 s

  -- `record(titles, details)`, with the body without the link to the run, which is no part of the
  -- model. An issue that cannot be closed is left open.
  unfoldable pub record_run : State → Option State
  unfolding perform perform_or_throw issue_title join
  record_run s =
      perform_or_throw w (create_issue (issue_title s.titles) (join (codes "\n") s.details)) s
      >>= λ s1. some (perform w close_issue s1).1

  unfoldable pub prepare : Bool → State → Option State
  unfolding perform_or_throw
  prepare dry s =
      let ready = do
        s1 ← perform_or_throw w git_config s
        s2 ← perform_or_throw w git_config s1
        perform_or_throw w git_pull s2
      in if dry then some s else ready

  unfoldable pub conclude : Bool → State → Option State
  unfolding push_with_rebase record_run
  conclude dry s = elim s.titles [
    | [] ↦ some s
    | ◌∷◌ title (titles → _) ↦ if dry then some s else push_with_rebase s >>= record_run
  ]

  -- The run from the list of entries and the files on disk, to its last state.
  unfoldable pub run : Bool → List Tracked → Dict → Option State
  unfolding prepare steps conclude
  run dry entries disk = do
    s ←
        prepare dry (record {
          disk = disk;
          sources = [];
          failed = [];
          titles = [];
          details = [];
          history = [];
        })
    s1 ← steps w dry entries s
    conclude dry s1

-- `process.exitCode`
unfoldable pub exit_code : State → ℕ
exit_code s = elim s.failed [ [] ↦ 0 | ◌∷◌ _ (_ → _) ↦ 1 ]
