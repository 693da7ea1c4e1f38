-- ===== src/Updates/Run/Step.antt =====
-- The loop of scripts/update-apps/update-apps.ts: what is done for an entry.
use jaritanet.Base.{
  Bool, true, Option, none, some, List, [], ◌∷◌, ◌++◌, if◌then◌else◌, ◌>>=◌, Text, codes, is_truthy,
}
use jaritanet.Base.Dicts.{put}
use jaritanet.Updates.Compare.{normalise_version}
use jaritanet.Updates.Template.{apply_template}
use jaritanet.Updates.ImageRef.{verify_ref}
use jaritanet.Updates.Decide.{Decision, up_to_date, update, lagging, problem, Facts, decide}
use jaritanet.Updates.Run.{
  Target, const_target, dependency_target, Tracked, git_commit, git_add, write_file, aube_install,
  World, State, truthy, head_sha, latest_tag, image_exists, chart_listed, perform_or_throw, source,
  target_file, read_target, write_target,
}

abbrev pub fail : Tracked → State → State
fail entry s = record s { failed = s.failed ++ entry.app ∷ [] }

-- What a bump adds to the report of the run.
abbrev pub report : Tracked → Text → Text → Text → State → State
report entry version from to s = record s {
  titles = s.titles ++ (entry.app ++ (codes " " ++ version)) ∷ [];
  details =
      s.details
      ++ (codes "- **"
          ++ (entry.app
              ++ (codes "** `"
                  ++ (from
                      ++ (codes "` → `"
                          ++ (to ++ (codes "` (from " ++ (entry.repo ++ codes ")"))))))))
        ∷ [];
}

-- `entry.branch`, if the entry follows a branch.
abbrev pub branch_of : Tracked → Option Text
branch_of entry = truthy entry.branch

abbrev pub version_of : Tracked → Text → Text
version_of entry tag = elim (branch_of entry) [ none ↦ normalise_version tag | some _ ↦ tag ]

-- The reference that has to exist for a version, and where it is looked for.
pub data Wanted : Type 0 where
  in_chart : Text → Text → Text → Wanted
  in_registry : Text → Wanted
  nowhere : Option Text → Wanted

unfoldable pub image_wanted : Option Text → Wanted
unfolding is_truthy
image_wanted none = nowhere none
image_wanted (some ref) = if is_truthy ref then in_registry ref else nowhere (some ref)

unfoldable pub wanted : Tracked → Text → Wanted
unfolding is_truthy verify_ref image_wanted
wanted entry version = elim (truthy entry.helm_index) [
  | some url ↦ elim (truthy entry.chart) [
    | some chart ↦ in_chart url chart (chart ++ (codes " " ++ version))
    | none ↦ image_wanted (verify_ref entry.value entry.image version)
  ]
  | none ↦ image_wanted (verify_ref entry.value entry.image version)
]

unfoldable pub ref_of : Wanted → Option Text
ref_of (in_chart url chart ref) = some ref
ref_of (in_registry ref) = some ref
ref_of (nowhere ref) = ref

module _ (w : World) where
  unfoldable pub tag_of : Tracked → Option Text
  unfolding head_sha latest_tag
  tag_of entry = elim (branch_of entry) [
    | some branch ↦ head_sha w entry.repo branch
    | none ↦ latest_tag w entry.repo entry.tag_prefix
  ]

  unfoldable pub look_for : Wanted → Text → Option Bool
  unfolding chart_listed image_exists
  look_for (in_chart url chart ref) version = chart_listed w url chart version
  look_for (in_registry ref) version = image_exists w ref
  look_for (nowhere ref) version = some true

  -- A bump is written, staged and committed; a package's lockfile goes along with it.
  unfoldable pub lock : Target → State → Option State
  unfolding perform_or_throw
  lock (const_target file key) s = some s
  lock (dependency_target manifest pkg) s = do
    s1 ← perform_or_throw w aube_install s
    perform_or_throw w (git_add (w.absolute (codes "aube-lock.yaml"))) s1

  unfoldable pub commit : Tracked → Text → Text → State → Option State
  unfolding perform_or_throw put lock
  commit entry to text s = do
    let path = w.absolute (target_file entry.target)
    s1 ← perform_or_throw w (write_file path text) (record s { sources = put path text s.sources })
    s2 ← perform_or_throw w (git_add path) (record s1 { disk = put path text s1.disk })
    s3 ← lock entry.target s2
    perform_or_throw w (git_commit (codes "chore: update " ++ (entry.app ++ (codes " to " ++ to))))
        s3

  unfoldable pub bump : Tracked → Text → Text → Text → State → Option State
  unfolding source write_target commit
  bump entry version from to s = do
    (text, s1) ← source w (target_file entry.target) s
    elim (write_target entry.target text to) [
      | none ↦ some (fail entry s1)
      | some rewritten ↦
          commit entry to rewritten s1 >>= λ s2. some (report entry version from to s2)
    ]

  unfoldable pub act : Bool → Tracked → Text → Decision → State → Option State
  unfolding bump
  act dry entry version (up_to_date current) s = some s
  act dry entry version (lagging reason) s = some s
  act dry entry version (problem reason) s = some (fail entry s)
  act dry entry version (update from to) s =
      if dry then some (report entry version from to s) else bump entry version from to s

  unfoldable pub facts_of : Tracked → Text → Option Text → Bool → Facts
  unfolding ref_of wanted
  facts_of entry tag current exists = record {
    tag = tag;
    current = current;
    next = apply_template entry.value (version_of entry tag);
    ref = ref_of (wanted entry (version_of entry tag));
    exists = exists;
  }

  unfoldable pub consider : Bool → Tracked → Text → State → Option State
  unfolding source read_target look_for act facts_of wanted decide
  consider dry entry tag s = do
    let version = version_of entry tag
    (text, s1) ← source w (target_file entry.target) s
    exists ← look_for (wanted entry version) version
    act dry entry version (decide (facts_of entry tag (read_target entry.target text) exists)) s1

  -- The body of the loop.
  unfoldable pub step : Bool → Tracked → State → Option State
  unfolding tag_of consider is_truthy
  step dry entry s = elim (truthy (tag_of entry)) [
    | none ↦ some (fail entry s)
    | some tag ↦ consider dry entry tag s
  ]

  unfoldable pub steps : Bool → List Tracked → State → Option State
  unfolding step
  steps dry [] s = some s
  steps dry (entry ∷ entries) s = step dry entry s >>= steps dry entries
