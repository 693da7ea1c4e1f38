-- ===== src/Updates/Decide/Outcomes.antt =====
-- The outcomes of `decide` of scripts/update-apps/versions.ts.
use jaritanet.Base.{
  ◌≡◌, ◌≢◌, ◌↔◌, ◌⊎◌, inl, inr, refl, ap, Bool, true, false, Option, none, some, [], ◌∷◌, arith,
  Text, text_eq_iff, is_truthy,
}
use jaritanet.Updates.Decide.{
  update, lagging, problem, Facts, is_missing, moved, gone, behind, or_empty, decide_read, decide,
}

-- The pin that the file holds.
abbrev pub IsPinned : Facts → Text → Type 0
IsPinned f current = (f.current ≡ some current) × (current ≢ [])

-- There is a reference to look for, and the registry does not have it.
abbrev pub IsUnpublished : Facts → Type 0
IsUnpublished f = (r : Text) × (f.ref ≡ some r) × (r ≢ []) × (f.exists ≡ false)

-- There is no reference to look for, or the registry has it.
abbrev pub IsAvailable : Facts → Type 0
IsAvailable f = (f.ref ≡ none) ⊎ ((f.ref ≡ some []) ⊎ (f.exists ≡ true))

is_missing-true :
    (ref : Option Text) (exists : Bool)
    → (is_missing ref exists ≡ true) ↔ ((r : Text) × (ref ≡ some r) × (r ≢ []) × (exists ≡ false))
unfolding is_missing is_truthy
is_missing-true none exists = (λ h. cc h, λ h. cc (h.1))
is_missing-true (some []) exists = (λ h. cc h, λ h. absurd (h.2 (cc (h.1))))
is_missing-true (some (c ∷ s)) exists =
    (λ h. (c ∷ s, refl, (λ e. cc e), ground arith), λ h. let e = h.3 in ground arith)

is_missing-false :
    (ref : Option Text) (exists : Bool)
    → (is_missing ref exists ≡ false) ↔ ((ref ≡ none) ⊎ ((ref ≡ some []) ⊎ (exists ≡ true)))
unfolding is_missing is_truthy
is_missing-false none exists = (λ h. inl refl, λ h. refl)
is_missing-false (some []) exists = (λ h. inr (inl refl), λ h. refl)
is_missing-false (some (c ∷ s)) exists = (
  λ h. inr (inr (ground arith)),
  λ h. elim h [ inl e ↦ cc e | inr k ↦ elim k [ inl e ↦ cc e | inr e ↦ ground arith ] ],
)

update_of :
    (f : Facts) (o : Option Text) (from to : Text)
    → decide_read f o ≡ update from to
    → (o ≡ some from)
      × (from ≢ [])
      × (from ≢ f.next)
      × (to ≡ f.next)
      × (is_missing f.ref f.exists ≡ false)
unfolding decide_read
update_of f none from to h = cc
update_of f (some []) from to h = cc
update_of f (some (c ∷ s)) from to h = ground (arith, text_eq_iff (c ∷ s) f.next)

of_update :
    (f : Facts) (o : Option Text) (from : Text)
    → o ≡ some from
    → from ≢ []
    → from ≢ f.next
    → is_missing f.ref f.exists ≡ false
    → decide_read f o ≡ update from f.next
unfolding decide_read
of_update f none from e n d m = cc
of_update f (some []) from e n d m = ground arith
of_update f (some (c ∷ s)) from e n d m = ground (arith, text_eq_iff (c ∷ s) f.next)

-- A bump is decided exactly for a pin that differs from the next value, when the next value's
-- reference is in the registry or there is none to look for; it goes from the pin to the next value.
pub decide-update_iff :
    (f : Facts) (from to : Text)
    → (decide f ≡ update from to)
      ↔ (IsPinned f from × (from ≢ f.next) × (to ≡ f.next) × IsAvailable f)
unfolding decide
decide-update_iff f from to = (
  λ h.
      let (e, n, d, t, m) = update_of f f.current from to h in
      ((e, n), d, t, (is_missing-false f.ref f.exists).0 m),
  λ h.
      rw h.2 (of_update f f.current from h.0.0 h.0.1 h.1 ((is_missing-false f.ref f.exists).1 h.3)),
)

lagging_of :
    (f : Facts) (o : Option Text) (reason : Text)
    → decide_read f o ≡ lagging reason
    → (c : Text) × (o ≡ some c)
      × (c ≢ [])
      × (c ≢ f.next)
      × (is_missing f.ref f.exists ≡ true)
      × (reason ≡ behind f.tag (or_empty f.ref) c)
unfolding decide_read
lagging_of f none reason h = cc
lagging_of f (some []) reason h = cc
lagging_of f (some (c ∷ s)) reason h =
    (c ∷ s, refl, cc, ground (arith, text_eq_iff (c ∷ s) f.next), ground arith, ground arith)

of_lagging :
    (f : Facts) (o : Option Text) (c : Text)
    → o ≡ some c
    → c ≢ []
    → c ≢ f.next
    → is_missing f.ref f.exists ≡ true
    → decide_read f o ≡ lagging (behind f.tag (or_empty f.ref) c)
unfolding decide_read
of_lagging f none c e n d m = cc
of_lagging f (some []) c e n d m = ground arith
of_lagging f (some (a ∷ s)) c e n d m = ground (arith, text_eq_iff (a ∷ s) f.next)

-- A pin is reported as lagging exactly when it differs from the next value and that value's
-- reference is not in the registry; the report names the tag, the reference and the pin.
pub decide-lagging_iff :
    (f : Facts) (reason : Text)
    → (decide f ≡ lagging reason) ↔ (
        (current : Text) × IsPinned f current
        × (current ≢ f.next)
        × IsUnpublished f
        × (reason ≡ behind f.tag (or_empty f.ref) current))
unfolding decide
decide-lagging_iff f reason = (
  λ h.
      let (c, e, n, d, m, r) = lagging_of f f.current reason h in
      (c, (e, n), d, (is_missing-true f.ref f.exists).0 m, r),
  λ h. rw h.4 (of_lagging f f.current h.0 h.1.0 h.1.1 h.2 ((is_missing-true f.ref f.exists).1 h.3)),
)

problem_of :
    (f : Facts) (o : Option Text) (reason : Text)
    → decide_read f o ≡ problem reason
    → (((c : Text) → ¬ ((o ≡ some c) × (c ≢ []))) × (reason ≡ moved))
      ⊎ (((o ≡ some f.next) × (f.next ≢ []))
          × (is_missing f.ref f.exists ≡ true)
          × (reason ≡ gone (or_empty f.ref)))
unfolding decide_read
problem_of f none reason h = inl (λ c p. cc (p.0), ground arith)
problem_of f (some []) reason h = inl (λ c p. p.1 (cc (p.0)), ground arith)
problem_of f (some (c ∷ s)) reason h =
    let same : c ∷ s ≡ f.next = ground (arith, text_eq_iff (c ∷ s) f.next) in
    inr ((ap some same, λ e. cc (same, e)), ground arith, ground arith)

of_lost :
    (f : Facts) (o : Option Text)
    → ((c : Text) → ¬ ((o ≡ some c) × (c ≢ [])))
    → decide_read f o ≡ problem moved
unfolding decide_read
of_lost f none h = refl
of_lost f (some []) h = refl
of_lost f (some (c ∷ s)) h = absurd (h (c ∷ s) (refl, cc))

of_gone :
    (f : Facts) (o : Option Text)
    → o ≡ some f.next
    → f.next ≢ []
    → is_missing f.ref f.exists ≡ true
    → decide_read f o ≡ problem (gone (or_empty f.ref))
unfolding decide_read
of_gone f none e n m = cc
of_gone f (some []) e n m = absurd (n (cc))
of_gone f (some (c ∷ s)) e n m = ground (arith, text_eq_iff (c ∷ s) f.next)

-- Something for a human exactly when the file holds no pin, or the pin itself is what the registry
-- does not have.
pub decide-problem_iff :
    (f : Facts) (reason : Text)
    → (decide f ≡ problem reason) ↔ (
        (((current : Text) → ¬ IsPinned f current) × (reason ≡ moved))
        ⊎ (IsPinned f f.next × IsUnpublished f × (reason ≡ gone (or_empty f.ref))))
unfolding decide
decide-problem_iff f reason = (
  λ h. elim (problem_of f f.current reason h) [
    | inl lost ↦ inl lost
    | inr (p, m, r) ↦ inr (p, (is_missing-true f.ref f.exists).0 m, r)
  ],
  λ h. elim h [
    | inl (lost, r) ↦ rw r (of_lost f f.current lost)
    | inr (p, m, r) ↦ rw r (of_gone f f.current p.0 p.1 ((is_missing-true f.ref f.exists).1 m))
  ],
)
