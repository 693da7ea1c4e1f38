-- ===== src/Updates/Run/Outcome.antt =====
-- What a step of the loop of scripts/update-apps/update-apps.ts comes to, as a relation.
use mathlib.Core.Path.{subst}
use jaritanet.Base.{
  ◌≡◌, refl, sym, ap, ◌∙◌, Bool, true, false, none, some, ◌>>=◌, Text, Option-cases, inl, inr, ◌⊎◌,
}
use jaritanet.Base.Dicts.{lookup, put, lookup-put_same}
use jaritanet.Updates.Decide.{Decision, up_to_date, update, lagging, problem, Facts, decide}
use jaritanet.Updates.Decide.Outcomes.{decide-update_iff}
use jaritanet.Updates.Pins.{
  read_const, write_const, read_dependency, write_dependency, const_head, dependency_head,
}
use jaritanet.Base.Options.{>>=-eq-some, some_injective}
use jaritanet.Updates.Pins.Edits.{write-some}
use jaritanet.Updates.Run.{
  Target, const_target, dependency_target, Tracked, World, State, truthy, source, target_file,
  read_target, write_target,
}
use jaritanet.Updates.Run.Step.{
  fail, report, version_of, wanted, tag_of, look_for, facts_of, commit, bump, act, consider, step,
}
use jaritanet.Updates.Run.Written.{bumped, commit-some}

-- What becomes of the state, by the decision. There is no case for a pin that was read and cannot
-- be written.
pub data Acted (w : World) (dry : Bool) (entry : Tracked) (version text : Text) (s : State)
    : Decision → State → Type 0 where
  stays : {current : Text} → Acted w dry entry version text s (up_to_date current) s
  waits : {reason : Text} → Acted w dry entry version text s (lagging reason) s
  breaks : {reason : Text} → Acted w dry entry version text s (problem reason) (fail entry s)
  reports :
      {from to : Text}
      → dry ≡ true
      → Acted w dry entry version text s (update from to) (report entry version from to s)
  writes :
      {from to rewritten : Text}
      → dry ≡ false
      → read_target entry.target text ≡ some from
      → write_target entry.target text to ≡ some rewritten
      → Acted w dry entry version text s
          (update from to)
          (report entry version from to (bumped w entry to rewritten s))

-- A step: the entry has no readable release, or it is decided on.
pub data Stepped (w : World) (dry : Bool) (entry : Tracked) (s : State) : State → Type 0 where
  unreadable : truthy (tag_of w entry) ≡ none → Stepped w dry entry s (fail entry s)
  decided :
      {tag text : Text} {s1 s' : State} {exists : Bool}
      → truthy (tag_of w entry) ≡ some tag
      → source w (target_file entry.target) s ≡ some (text, s1)
      → look_for w (wanted entry (version_of entry tag)) (version_of entry tag) ≡ some exists
      → Acted w dry entry
          (version_of entry tag)
          text
          s1
          (decide (facts_of w entry tag (read_target entry.target text) exists))
          s'
      → Stepped w dry entry s s'

write_target-some :
    (t : Target) (text from to : Text)
    → read_target t text ≡ some from
    → (rewritten : Text) × (write_target t text to ≡ some rewritten)
unfolding read_target write_target read_const write_const read_dependency write_dependency
write_target-some (const_target file key) text from to e =
    write-some (const_head key) text from to e
write_target-some (dependency_target manifest pkg) text from to e =
    write-some (dependency_head pkg) text from to e

module _ (w : World) where
  source_hit :
      (file text : Text) (s : State)
      → lookup (w.absolute file) s.sources ≡ some text
      → source w file s ≡ some (text, s)
  unfolding source
  source_hit file text s h = rw (h, source) refl

  source_miss :
      (file : Text) (s : State)
      → lookup (w.absolute file) s.sources ≡ none
      → source w file s ≡ (
          lookup (w.absolute file) s.disk >>= λ text.
          some (text, record s { sources = put (w.absolute file) text s.sources }))
  unfolding source
  source_miss file s h = rw (h, source) refl

  -- The text of a file is in memory from then on, and is what was there or on disk.
  pub source-some :
      (file text : Text) (s s1 : State)
      → source w file s ≡ some (text, s1)
      → (lookup (w.absolute file) s1.sources ≡ some text)
        × ((s1 ≡ s)
            ⊎ ((lookup (w.absolute file) s.disk ≡ some text)
                × (s1 ≡ record s { sources = put (w.absolute file) text s.sources })))
  source-some file text s s1 e = elim (Option-cases (lookup (w.absolute file) s.sources)) [
    | inr (t, h) ↦
        let same : (t, s) ≡ (text, s1) = some_injective _ _ (sym (source_hit file t s h) ∙ e) in
        let state : s1 ≡ s = sym (ap (λ (p : Text × State). p.1) same) in
        (rw state (h ∙ ap (λ (p : Text × State). some p.0) same), inl state)
    | inl h ↦
        let (t, found, same) =
          >>=-eq-some (lookup (w.absolute file) s.disk) _ (text, s1)
            (sym (source_miss file s h) ∙ e) in
        let pair = some_injective _ _ same in
        let value : t ≡ text = ap (λ (p : Text × State). p.0) pair in
        let state = sym (ap (λ (p : Text × State). p.1) pair) in
        (
          rw state (lookup-put_same (w.absolute file) t s.sources ∙ ap some value),
          inr (
            found ∙ ap some value,
            state ∙ ap (λ v. record s { sources = put (w.absolute file) v s.sources }) value,
          ),
        )
  ]

  bump-eq :
      (entry : Tracked) (version from to text rewritten : Text) (s : State)
      → lookup (w.absolute (target_file entry.target)) s.sources ≡ some text
      → write_target entry.target text to ≡ some rewritten
      → bump w entry version from to s
        ≡ (commit w entry to rewritten s >>= λ s2. some (report entry version from to s2))
  unfolding bump
  bump-eq entry version from to text rewritten s h e =
      rw (source_hit (target_file entry.target) text s h, bump)
        (ap
          (λ o. elim o [
            | none ↦ some (fail entry s)
            | some r ↦ commit w entry to r s >>= λ s2. some (report entry version from to s2)
          ])
          e)

  acted :
      (dry : Bool) (entry : Tracked) (version text : Text) (s s' : State) (f : Facts) (d : Decision)
      → f.current ≡ read_target entry.target text
      → lookup (w.absolute (target_file entry.target)) s.sources ≡ some text
      → decide f ≡ d
      → act w dry entry version d s ≡ some s'
      → Acted w dry entry version text s d s'
  unfolding act
  acted dry entry version text s s' f (up_to_date c) k m h e =
      subst (Acted w dry entry version text s (up_to_date c)) (some_injective s s' e) stays
  acted dry entry version text s s' f (lagging c) k m h e =
      subst (Acted w dry entry version text s (lagging c)) (some_injective s s' e) waits
  acted dry entry version text s s' f (problem c) k m h e =
      subst (Acted w dry entry version text s (problem c)) (some_injective _ s' e) breaks
  acted true entry version text s s' f (update from to) k m h e =
      subst (Acted w true entry version text s (update from to)) (some_injective _ s' e)
        (reports refl)
  acted false entry version text s s' f (update from to) k m h e =
      let pinned : read_target entry.target text ≡ some from =
        sym k ∙ ((decide-update_iff f from to).0 h).0.0 in
      let (rewritten, wrote) = write_target-some entry.target text from to pinned in
      let (s2, c, r) =
        >>=-eq-some (commit w entry to rewritten s) _ s'
          (sym (bump-eq entry version from to text rewritten s m wrote) ∙ e) in
      subst (Acted w false entry version text s (update from to))
        (ap (report entry version from to) (sym (commit-some w entry to rewritten s s2 c))
          ∙ some_injective _ s' r)
        (writes refl pinned wrote)

  considered :
      (dry : Bool) (entry : Tracked) (tag : Text) (s s' : State)
      → truthy (tag_of w entry) ≡ some tag
      → consider w dry entry tag s ≡ some s'
      → Stepped w dry entry s s'
  unfolding consider
  considered dry entry tag s s' t e =
      let (found, p, e1) = >>=-eq-some (source w (target_file entry.target) s) _ s' e in
      let (exists, q, e2) =
        >>=-eq-some (look_for w (wanted entry (version_of entry tag)) (version_of entry tag)) _ s'
          e1 in
      decided t p q (
        acted dry entry (version_of entry tag) found.0 found.1 s' _ _ refl
          (source-some (target_file entry.target) found.0 s found.1 p).0 refl e2)

  -- A step that does not throw comes to one of the cases: in particular a pin that is to be moved
  -- is always written, never reported as one that cannot be.
  pub step-Stepped :
      (dry : Bool) (entry : Tracked) (s s' : State)
      → step w dry entry s ≡ some s'
      → Stepped w dry entry s s'
  unfolding step
  step-Stepped dry entry s s' e =
      (elim (truthy (tag_of w entry))
          as (λ o.
            truthy (tag_of w entry) ≡ o
            → (elim o [ none ↦ some (fail entry s) | some tag ↦ consider w dry entry tag s ])
              ≡ some s'
            → Stepped w dry entry s s') [
              | none ↦ λ h k. subst (Stepped w dry entry s) (some_injective _ s' k) (unreadable h)
              | some tag ↦ λ h k. considered dry entry tag s s' h k
            ])
        refl e
