-- ===== src/Updates/Run.antt =====
-- The run of scripts/update-apps/update-apps.ts. The commands it runs (git, gh, aube) and the
-- network are the parameter `World`: what each answers, and whether a command succeeds, which can
-- depend on all commands before it. An exception that the script does not catch is `none`. What it
-- writes to standard output is left out.
pub mod Step
pub mod Finish
pub mod Written
pub mod Outcome
pub mod Coherent
pub mod Ledger
pub mod Push
pub mod Whole
mod Examples
use jaritanet.Base.{
  ℕ, zero, suc, Bool, true, false, not, ◌&&◌, ◌||◌, Option, none, some, List, [], ◌∷◌, ◌++◌, ◌==◌,
  ltb, if◌then◌else◌, ◌>>=◌, Text, codes, text_eq, trim, split, join, is_truthy, filter, any,
  length,
}
use jaritanet.Base.Decimal.{decimal}
use jaritanet.Base.Dicts.{Dict, lookup, put}
use jaritanet.Updates.Compare.{normalise_version}
use jaritanet.Updates.Pick.{pick_latest_tag}
use jaritanet.Updates.Template.{apply_template}
use jaritanet.Updates.ImageRef.{ImageRef, Yaml, parse_image_ref, chart_serves, verify_ref}
use jaritanet.Updates.Decide.{Decision, up_to_date, update, lagging, problem, Facts, decide}
use jaritanet.Updates.Pins.{read_const, write_const, read_dependency, write_dependency}

-- `TargetSchema`: a key of a `versions.ts`, or a package of a `package.json`.
pub data Target : Type 0 where
  const_target : Text → Text → Target
  dependency_target : Text → Text → Target

pub record Tracked : Type 0 where
  pub app : Text
  pub repo : Text
  pub value : Text
  pub image : Option Text
  pub tag_prefix : Option Text
  pub helm_index : Option Text
  pub chart : Option Text
  pub branch : Option Text
  pub target : Target

-- The commands that change something.
pub data Command : Type 0 where
  git_config git_pull git_push : Command
  write_file : Text → Text → Command
  git_add : Text → Command
  aube_install : Command
  git_commit : Text → Command
  create_issue : Text → Text → Command
  close_issue : Command

-- A response of a registry's token endpoint.
pub data Auth : Type 0 where
  refused : Auth
  granted : Option Text → Auth

-- A fetched index of a Helm repository.
pub data Index : Type 0 where
  not_found : Index
  found : Yaml → Index

pub record World : Type 0 where
  -- `join(ROOT, file)`
  pub absolute : Text → Text
  -- The output of `gh api repos/<repo>/commits/<branch>`, of `repos/<repo>/releases/latest` and of
  -- `repos/<repo>/releases`, where the command succeeds.
  pub head : Text → Text → Option Text
  pub latest_release : Text → Option Text
  pub releases : Text → Option Text
  -- The registries: the token for a repository, and the status of a manifest.
  pub token : Text → Text → Option Auth
  pub manifest : Text → Text → Text → Text → Option ℕ
  pub index : Text → Option Index
  -- Whether a command succeeds, by the commands before it, the last one first.
  pub succeeds : List Command → Command → Bool

pub record State : Type 0 where
  pub disk : Dict
  pub sources : Dict
  pub failed : List Text
  pub titles : List Text
  pub details : List Text
  pub history : List Command

-- A field that is absent or empty is falsy.
abbrev pub truthy : Option Text → Option Text
truthy none = none
truthy (some s) = if is_truthy s then some s else none

abbrev pub take_units : ℕ → Text → Text
take_units zero s = []
take_units (suc n) [] = []
take_units (suc n) (c ∷ s) = c ∷ take_units n s

-- The names that every object has; as a registry, each reads as something without endpoints, and
-- calling these throws.
abbrev pub inherited : List Text
inherited =
    codes "constructor"
    ∷ codes "toString"
    ∷ codes "toLocaleString"
    ∷ codes "valueOf"
    ∷ codes "hasOwnProperty"
    ∷ codes "isPrototypeOf"
    ∷ codes "propertyIsEnumerable"
    ∷ codes "__proto__"
    ∷ codes "__defineGetter__"
    ∷ codes "__defineSetter__"
    ∷ codes "__lookupGetter__"
    ∷ codes "__lookupSetter__"
    ∷ []

-- `REGISTRIES`
abbrev pub registries : List Text
registries = codes "ghcr.io" ∷ codes "docker.io" ∷ []

module _ (w : World) where
  unfoldable pub head_sha : Text → Text → Option Text
  unfolding trim is_truthy
  head_sha repo branch = w.head repo branch >>= λ out. truthy (some (take_units 7 (trim out)))

  unfoldable pub latest_tag : Text → Option Text → Option Text
  unfolding trim is_truthy split filter pick_latest_tag
  latest_tag repo prefix = elim (truthy prefix) [
    | none ↦ w.latest_release repo >>= λ out. truthy (some (trim out))
    | some p ↦ w.releases repo >>= λ out.
        pick_latest_tag (filter is_truthy (split (λ c. c == 10) (trim out))) (some p)
  ]

  unfoldable pub manifest_exists : ImageRef → Auth → Option Bool
  unfolding is_truthy
  manifest_exists ref refused = some false
  manifest_exists ref (granted t) = elim (truthy t) [
    | none ↦ some false
    | some token ↦
        w.manifest ref.registry ref.repository ref.tag token >>= λ status. some (status == 200)
  ]

  unfoldable pub image_exists : Text → Option Bool
  unfolding parse_image_ref any text_eq manifest_exists
  image_exists text =
      let ref = parse_image_ref text in
      if any (text_eq ref.registry) registries
      then w.token ref.registry ref.repository >>= manifest_exists ref
      else if any (text_eq ref.registry) inherited
      then none
      else some true

  unfoldable pub chart_listed : Text → Text → Text → Option Bool
  unfolding chart_serves
  chart_listed url chart version = w.index url >>= λ answer. elim answer [
    | not_found ↦ some false
    | found index ↦ chart_serves index chart version
  ]

  -- A command, which succeeds or throws; either way it was run.
  unfoldable pub perform : Command → State → Bool × State
  perform c s = (w.succeeds s.history c, record s { history = c ∷ s.history })

  -- A command whose exception ends the run.
  unfoldable pub perform_or_throw : Command → State → Option State
  unfolding perform
  perform_or_throw c s = let done = perform c s in if done.0 then some done.1 else none

  -- `source(file)`: the text in memory, else that of the disk, which is kept.
  unfoldable pub source : Text → State → Option (Text × State)
  unfolding lookup put
  source file s =
      let path = w.absolute file in
      elim (lookup path s.sources) [
        | some text ↦ some (text, s)
        | none ↦ lookup path s.disk >>= λ text.
            some (text, record s { sources = put path text s.sources })
      ]

abbrev pub target_file : Target → Text
target_file (const_target file key) = file
target_file (dependency_target manifest pkg) = manifest

unfoldable pub read_target : Target → Text → Option Text
read_target (const_target file key) text = read_const text key
read_target (dependency_target manifest pkg) text = read_dependency text pkg

unfoldable pub write_target : Target → Text → Text → Option Text
write_target (const_target file key) text value = write_const text key value
write_target (dependency_target manifest pkg) text value = write_dependency text pkg value
