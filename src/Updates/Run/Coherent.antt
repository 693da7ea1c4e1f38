-- ===== src/Updates/Run/Coherent.antt =====
-- The files in memory and on disk during the run of scripts/update-apps/update-apps.ts.
use mathlib.Core.Path.{subst}
use jaritanet.Base.{
  ◌≡◌, sym, ◌∙◌, Bool, some, List, [], ◌∷◌, Text, text_eq, text_eq_iff, Bool-cases, inl, inr, ◌⊎◌,
}
use jaritanet.Base.Dicts.{Dict, lookup, put, lookup-put_same, lookup-put_other}
use jaritanet.Updates.Decide.{Decision}
use jaritanet.Base.Options.{>>=-eq-some, some_injective}
use jaritanet.Updates.Run.{Tracked, World, State, target_file}
use jaritanet.Updates.Run.Step.{steps, step}
use jaritanet.Updates.Run.Outcome.{
  Acted, stays, waits, breaks, reports, writes, Stepped, unreadable, decided, step-Stepped,
  source-some,
}

-- What is kept in memory of a file is what stands on disk.
abbrev pub IsCoherent : State → Type 0
IsCoherent s =
    (path text : Text) → lookup path s.sources ≡ some text → lookup path s.disk ≡ some text

put_both :
    (sources disk : Dict) (path text : Text)
    → ((p t : Text) → lookup p sources ≡ some t → lookup p disk ≡ some t)
    → (p t : Text) → lookup p (put path text sources) ≡ some t
    → lookup p (put path text disk) ≡ some t
put_both sources disk path text h p t e = elim (Bool-cases (text_eq path p)) [
  | inl same ↦
      let eq = (text_eq_iff path p).0 same in
      subst (λ q. lookup q (put path text disk) ≡ some t) eq
        (lookup-put_same path text disk
          ∙ sym (lookup-put_same path text sources)
          ∙ subst (λ q. lookup q (put path text sources) ≡ some t) (sym eq) e)
  | inr apart ↦
      lookup-put_other path p text disk apart
      ∙ h p t (sym (lookup-put_other path p text sources apart) ∙ e)
]

put_source :
    (sources disk : Dict) (path text : Text)
    → lookup path disk ≡ some text
    → ((p t : Text) → lookup p sources ≡ some t → lookup p disk ≡ some t)
    → (p t : Text) → lookup p (put path text sources) ≡ some t
    → lookup p disk ≡ some t
put_source sources disk path text there h p t e = elim (Bool-cases (text_eq path p)) [
  | inl same ↦
      let eq = (text_eq_iff path p).0 same in
      subst (λ q. lookup q disk ≡ some t) eq
        (there
          ∙ sym (lookup-put_same path text sources)
          ∙ subst (λ q. lookup q (put path text sources) ≡ some t) (sym eq) e)
  | inr apart ↦ h p t (sym (lookup-put_other path p text sources apart) ∙ e)
]

module _ (w : World) (dry : Bool) (entry : Tracked) where
  Acted-IsCoherent :
      {version text : Text} {s s' : State} {d : Decision}
      → IsCoherent s
      → Acted w dry entry version text s d s'
      → IsCoherent s'
  Acted-IsCoherent h stays = h
  Acted-IsCoherent h waits = h
  Acted-IsCoherent h breaks = h
  Acted-IsCoherent h (reports _) = h
  Acted-IsCoherent {s = s} h (writes {rewritten = new} _ _ _) =
      put_both s.sources s.disk (w.absolute (target_file entry.target)) new h

  source-IsCoherent :
      {text : Text} {s s1 : State}
      → IsCoherent s
      → (s1 ≡ s)
        ⊎ ((lookup (w.absolute (target_file entry.target)) s.disk ≡ some text)
            × (s1 ≡ record s {
              sources = put (w.absolute (target_file entry.target)) text s.sources;
            }))
      → IsCoherent s1
  source-IsCoherent h (inl e) = subst IsCoherent (sym e) h
  source-IsCoherent {text = text} {s = s} h (inr (found, e)) =
      subst IsCoherent (sym e)
        (put_source s.sources s.disk (w.absolute (target_file entry.target)) text found h)

  Stepped-IsCoherent : {s s' : State} → IsCoherent s → Stepped w dry entry s s' → IsCoherent s'
  Stepped-IsCoherent h (unreadable _) = h
  Stepped-IsCoherent {s = s} h (decided {text = text} {s1 = s1} _ found _ a) =
      Acted-IsCoherent
        (source-IsCoherent h (source-some w (target_file entry.target) text s s1 found).1) a

-- A loop that ends without an exception keeps the files in memory as they are on disk, if they are
-- so before it.
pub steps-IsCoherent :
    (w : World) (dry : Bool) (entries : List Tracked) (s s' : State)
    → IsCoherent s
    → steps w dry entries s ≡ some s'
    → IsCoherent s'
unfolding steps
steps-IsCoherent w dry [] s s' h e = subst IsCoherent (some_injective s s' e) h
steps-IsCoherent w dry (entry ∷ entries) s s' h e =
    let (s1, p, q) = >>=-eq-some (step w dry entry s) _ s' e in
    steps-IsCoherent w dry entries s1 s'
      (Stepped-IsCoherent w dry entry h (step-Stepped w dry entry s s1 p)) q
