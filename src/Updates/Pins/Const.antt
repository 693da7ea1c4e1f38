-- ===== src/Updates/Pins/Const.antt =====
-- The head of a pin in a `versions.ts`, which `readConst` and `writeConst` of
-- scripts/update-apps/versions.ts look for.
use mathlib.Core.Path.{subst}
use mathlib.Core.List.{append_assoc}
use jaritanet.Base.{
  ℕ, ◌≡◌, refl, ap, ◌∙◌, sym, Bool, true, false, ◌&&◌, ◌||◌, ◌⊎◌, Bool-cases, ◌≢◌, inl, inr, none,
  some, [], ◌∷◌, ◌++◌, ◌==◌, leb, arith, ◌>>=◌, Text, codes, span, is_digit, is_space, strip_prefix,
  strip_prefix_sound, strip_prefix-append, All,
}
use jaritanet.Base.Slices.{Lacks}
use jaritanet.Updates.Pins.{quote, not_quote, close, match_here, const_head}
use jaritanet.Base.Options.{>>=-eq-some, some_injective}
use jaritanet.Updates.Pins.Heads.{IsLawful, span_sound}

abbrev pub is_letter : ℕ → Bool
is_letter c = (leb b'A' c && leb c b'Z') || (leb b'a' c && leb c b'z')

-- `/^[A-Za-z][A-Za-z0-9]*$/`, which the configuration's schema requires of a key.
abbrev pub IsKey : Text → Type 0
IsKey [] = ⊥
IsKey (c ∷ s) = (is_letter c ≡ true) × All (λ d. (is_letter d || is_digit d) ≡ true) s

-- The literal that closes a head, without its quote.
abbrev name : Text → Text
name key = key ++ codes ": "

name_quote : (key : Text) → key ++ codes ": \"" ≡ name key ++ quote ∷ []
name_quote key = simp append_assoc

span-append :
    (x : Text) (c : ℕ) (r : Text)
    → All (λ d. is_space d ≡ true) x
    → is_space c ≡ false
    → span is_space (x ++ c ∷ r) ≡ (x, c ∷ r)
unfolding span
span-append [] c r h e = rw e
span-append (d ∷ x) c r (p, h) e = rw (p, span-append x c r h e)

span_all : (s : Text) → All (λ d. is_space d ≡ true) (span is_space s).0
unfolding span
span_all [] = tt
span_all (c ∷ s) = ground (arith, span_all s)

-- Up to a quote, which is no white space, `span` does not see what follows.
span-quote :
    (x y : Text)
    → span is_space (x ++ quote ∷ y) ≡ ((span is_space x).0, (span is_space x).1 ++ quote ∷ y)
unfolding span is_space
span-quote [] y = refl
span-quote (c ∷ x) y = ground (arith, span-quote x y)

-- A literal that ends in its only quote is found in a text up to a quote, or not, whatever follows.
strip_quote :
    (l x : Text)
    → Lacks quote l
    → ((y : Text) → strip_prefix (l ++ quote ∷ []) (x ++ quote ∷ y) ≡ none)
      ⊎ ((z : Text) × ((y : Text)
            → strip_prefix (l ++ quote ∷ []) (x ++ quote ∷ y) ≡ some (z ++ y)))
unfolding strip_prefix
strip_quote [] [] h = inr ([], λ y. refl)
strip_quote [] (c ∷ x) h = elim (Bool-cases (quote == c)) [
  | inl e ↦ inr (x ++ quote ∷ [], λ y. rw e (ap some (sym (append_assoc x (quote ∷ []) y))))
  | inr e ↦ inl (λ y. rw e)
]
strip_quote (d ∷ l) [] (p, h) = inl (λ y. ground arith)
strip_quote (d ∷ l) (c ∷ x) (p, h) = elim (Bool-cases (d == c)) [
  | inl e ↦ elim (strip_quote l x h) [
    | inl missed ↦ inl (λ y. rw e (missed y))
    | inr (z, found) ↦ inr (z, λ y. rw e (found y))
  ]
  | inr e ↦ inl (λ y. rw e)
]

span_closes :
    (u r : Text)
    → (v : Text) × (q : ℕ) × (after : Text) × (span not_quote (u ++ quote ∷ r) ≡ (v, q ∷ after))
unfolding span
span_closes [] r = ([], quote, r, refl)
span_closes (c ∷ u) r = elim (Bool-cases (not_quote c)) [
  | inl e ↦ let (v, q, after, ih) = span_closes u r in (c ∷ v, q, after, rw (e, ih))
  | inr e ↦ ([], c, u ++ quote ∷ r, rw e)
]

close_some : (b u r : Text) → close b (span not_quote (u ++ quote ∷ r)) ≢ none
unfolding close
close_some b u r e = let (v, q, after, s) = span_closes u r in cc (rw (s, close) at e)

letter_no_space : (c : ℕ) → is_letter c ≡ true → is_space c ≡ false
unfolding is_space
letter_no_space c h = ground arith

key-Lacks : (s : Text) → All (λ d. (is_letter d || is_digit d) ≡ true) s → Lacks quote (name s)
key-Lacks [] h = (refl, (refl, tt))
key-Lacks (c ∷ s) (p, h) = (ground arith, key-Lacks s h)

const_head_parts :
    (key s b r : Text)
    → const_head key s ≡ some (b, r)
    → (b ≡ (span is_space s).0 ++ (key ++ codes ": \""))
      × ((span is_space s).1 ≡ (key ++ codes ": \"") ++ r)
unfolding const_head
const_head_parts key s b r e =
    let (after, found, same) =
      >>=-eq-some (strip_prefix (key ++ codes ": \"") (span is_space s).1)
        (λ t. some ((span is_space s).0 ++ (key ++ codes ": \""), t)) (b, r) e in
    let pair : ◌≡◌ {A = Text × Text} ((span is_space s).0 ++ (key ++ codes ": \""), after) (b, r) =
      some_injective _ _ same in
    (
      sym (ap (λ (t : Text × Text). t.0) pair),
      strip_prefix_sound (key ++ codes ": \"") (span is_space s).1 after found
          ∙ ap (λ (t : Text × Text). (key ++ codes ": \"") ++ t.1) pair,
    )

const_head_sound : (key s b r : Text) → const_head key s ≡ some (b, r) → s ≡ b ++ r
const_head_sound key s b r e =
    let (p, q) = const_head_parts key s b r e in
    span_sound is_space s
    ∙ ap (λ t. (span is_space s).0 ++ t) q
    ∙ sym (append_assoc (span is_space s).0 (key ++ codes ": \"") r)
    ∙ ap (λ t. t ++ r) (sym p)

const_head_opens :
    (key s b r : Text) → const_head key s ≡ some (b, r) → (o : Text) × (b ≡ o ++ quote ∷ [])
const_head_opens key s b r e =
    let (p, q) = const_head_parts key s b r e in
    ((span is_space s).0 ++ name key, rw p (simp append_assoc))

const_head_local :
    (key s b r r' : Text)
    → IsKey key
    → const_head key s ≡ some (b, r)
    → const_head key (b ++ r') ≡ some (b, r')
unfolding const_head
const_head_local [] s b r r' h e = absurd h
const_head_local (c ∷ k) s b r r' h e =
    let (p, q) = const_head_parts (c ∷ k) s b r e in
    let space : Text = (span is_space s).0 in
    let key : Text = c ∷ k in
    let lit : Text = key ++ codes ": \"" in
    let shape : b ++ r' ≡ space ++ (lit ++ r') = rw p (append_assoc space lit r') in
    let stops : span is_space (b ++ r') ≡ (space, lit ++ r') =
      ap (span is_space) shape
      ∙ span-append space c ((k ++ codes ": \"") ++ r') (span_all s) (letter_no_space c h.0) in
    rw (stops, const_head) (rw (strip_prefix-append lit r') (λ i. some (sym p i, r')))

-- What a head finds in a text up to a quote, whatever follows the quote.
abbrev FindsEarly : Text → Text → Type 0
FindsEarly key x =
    ((y : Text) → const_head key (x ++ quote ∷ y) ≡ none)
    ⊎ ((b : Text) × (z : Text) × ((y : Text) → const_head key (x ++ quote ∷ y) ≡ some (b, z ++ y)))

const_head_early : (key x : Text) → Lacks quote (name key) → FindsEarly key x
unfolding const_head
const_head_early key x h =
    let lit : Text = key ++ codes ": \"" in
    let space : Text = (span is_space x).0 in
    let rest : Text = (span is_space x).1 in
    let early =
      subst
        (λ l.
          ((y : Text) → strip_prefix l (rest ++ quote ∷ y) ≡ none)
          ⊎ ((z : Text) × ((y : Text) → strip_prefix l (rest ++ quote ∷ y) ≡ some (z ++ y))))
        (sym (name_quote key)) (strip_quote (name key) rest h) in
    elim early [
      | inl missed ↦ inl (λ y. rw (span-quote x y, const_head) (rw (missed y)))
      | inr (z, found) ↦ inr (space ++ lit, z, λ y. rw (span-quote x y, const_head) (rw (found y)))
    ]

match_here-none : (key s : Text) → const_head key s ≡ none → match_here (const_head key) s ≡ none
unfolding match_here
match_here-none key s e = rw e

match_here-found :
    (key s b z v after : Text)
    → const_head key s ≡ some (b, z ++ (v ++ quote ∷ after))
    → match_here (const_head key) s ≢ none
unfolding match_here
match_here-found key s b z v after e missed = close_some b (z ++ v) after (
    ap (λ t. close b (span not_quote t)) (append_assoc z v (quote ∷ after))
    ∙ sym (ap (λ o. o >>= λ (p : Text × Text). close p.0 (span not_quote p.1)) e)
    ∙ missed)

const_head_steady :
    (key x v w after : Text)
    → Lacks quote (name key)
    → match_here (const_head key) (x ++ quote ∷ (v ++ quote ∷ after)) ≡ none
    → match_here (const_head key) (x ++ quote ∷ (w ++ quote ∷ after)) ≡ none
const_head_steady key x v w after h e = elim (const_head_early key x h) [
  | inl missed ↦ match_here-none key _ (missed (w ++ quote ∷ after))
  | inr (b, z, found) ↦ absurd (match_here-found key _ b z v after (found (v ++ quote ∷ after)) e)
]

IsKey-Lacks : (key : Text) → IsKey key → Lacks quote (name key)
IsKey-Lacks [] h = absurd h
IsKey-Lacks (c ∷ s) (p, h) = (ground arith, key-Lacks s h)

pub const_head-IsLawful : (key : Text) → IsKey key → IsLawful (const_head key)
const_head-IsLawful key h = record {
  sound = const_head_sound key;
  opens = const_head_opens key;
  local = λ s b r r' e. const_head_local key s b r r' h e;
  steady = λ x v w after e. const_head_steady key x v w after (IsKey-Lacks key h) e;
}
