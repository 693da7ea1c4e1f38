-- ===== src/Updates/Run/Examples.antt =====
-- Runs of scripts/update-apps/update-apps.ts, and each theorem on them at a concrete input.
use jaritanet.Base.{
  ℕ, suc, ◌<◌, ◌≡◌, refl, true, false, Option, none, some, [], ◌∷◌, ◌⊎◌, codes, length, text_eq,
  trim, split, filter, join, starts_with, any, is_truthy,
}
use jaritanet.Base.Decimal.{decimal}
use jaritanet.Base.Dicts.{Dict, lookup, put}
use jaritanet.Updates.Tests.{runs}
use jaritanet.Updates.Decide.{decide}
use jaritanet.Updates.Run.{
  const_target, Tracked, World, State, not_found, granted, head_sha, latest_tag, image_exists,
  manifest_exists, chart_listed, perform, perform_or_throw, source, read_target, write_target,
}
use jaritanet.Updates.Run.Step.{
  image_wanted, wanted, ref_of, tag_of, look_for, lock, commit, bump, act, facts_of, consider, step,
  steps,
}
use jaritanet.Updates.Run.Finish.{
  issue_title, attempt, push_attempts, push_with_rebase, record_run, prepare, conclude, run,
}
use jaritanet.Updates.Run.Outcome.{Stepped, step-Stepped}
use jaritanet.Updates.Run.Coherent.{IsCoherent, steps-IsCoherent}
use jaritanet.Updates.Run.Ledger.{commits}
use jaritanet.Updates.Run.Push.{after, IsFirst, push_with_rebase-cases}
use jaritanet.Updates.Run.Whole.{run-commits, run-dry}

-- All commands succeed, and the one release is 27.1.
abbrev world : World
world = record {
  absolute = λ file. file;
  head = λ repo branch. none;
  latest_release = λ repo. some (codes "v27.1\n");
  releases = λ repo. none;
  token = λ registry repository. some (granted (some (codes "t")));
  manifest = λ registry repository tag token. some 200;
  index = λ url. some not_found;
  succeeds = λ history command. true;
}

abbrev entry : Tracked
entry = record {
  app = codes "xray";
  repo = codes "XTLS/Xray-core";
  value = codes "g/x:{version}";
  image = none;
  tag_prefix = none;
  helm_index = none;
  chart = none;
  branch = none;
  target = const_target (codes "v.ts") (codes "xray");
}

abbrev disk : Dict
disk = (codes "v.ts", codes "  xray: \"g/x:26\",") ∷ []

abbrev initial : State
initial = record { disk = disk; sources = []; failed = []; titles = []; details = []; history = [] }

evaluate : Unit {0}
unfolding runs lookup put decide head_sha latest_tag image_exists manifest_exists chart_listed
    perform perform_or_throw source read_target write_target image_wanted wanted ref_of tag_of
    look_for lock commit bump act facts_of consider step steps issue_title attempt push_attempts
    push_with_rebase record_run prepare conclude run text_eq trim split filter join any starts_with
    is_truthy decimal
evaluate = tt

abbrev state : Option State → State
state none = initial
state (some s) = s

abbrev real : State
real = state (run world false (entry ∷ []) disk)

real-run : (run world false (entry ∷ []) disk ≡ some real) × (real.titles ≡ codes "xray 27.1" ∷ [])
unfolding evaluate
real-run = (refl, refl)

run-commits_example : commits real.history ≡ length real.titles
run-commits_example = run-commits world (entry ∷ []) disk real real-run.0

abbrev dry : State
dry = state (run world true (entry ∷ []) disk)

dry-run : (run world true (entry ∷ []) disk ≡ some dry) × (dry.titles ≡ codes "xray 27.1" ∷ [])
unfolding evaluate
dry-run = (refl, refl)

run-dry_example : (dry.disk ≡ disk) × (dry.history ≡ [])
run-dry_example = run-dry world (entry ∷ []) disk dry dry-run.0

abbrev stepped : State
stepped = state (step world false entry initial)

one_step : (step world false entry initial ≡ some stepped) × (stepped.failed ≡ [])
unfolding evaluate
one_step = (refl, refl)

step-Stepped_example : Stepped world false entry initial stepped
step-Stepped_example = step-Stepped world false entry initial stepped one_step.0

abbrev looped : State
looped = state (steps world false (entry ∷ entry ∷ []) initial)

two_steps :
    (steps world false (entry ∷ entry ∷ []) initial ≡ some looped)
    × (looped.disk ≡ (codes "v.ts", codes "  xray: \"g/x:27.1\",") ∷ [])
unfolding evaluate
two_steps = (refl, refl)

initial-IsCoherent : IsCoherent initial
unfolding lookup
initial-IsCoherent path text e = cc e

steps-IsCoherent_example : IsCoherent looped
steps-IsCoherent_example =
    steps-IsCoherent world false (entry ∷ entry ∷ []) initial looped initial-IsCoherent two_steps.0

push_with_rebase-cases_example :
    ((push_with_rebase world initial ≡ none)
      × ((j : ℕ) → j < 3 → (attempt world (after world j initial)).0 ≡ false))
    ⊎ ((k : ℕ) × (k < 3)
        × IsFirst world k initial
        × (push_with_rebase world initial ≡ some (after world (suc k) initial)))
push_with_rebase-cases_example = push_with_rebase-cases world initial
