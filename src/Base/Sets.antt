-- ===== src/Base/Sets.antt =====
-- `new Set(texts)`: the texts without repetitions, and lists that repeat none.
use mathlib.Core.Path.{subst}
use jaritanet.Base.{
  suc, ◌≤◌, ◌≡◌, ◌≢◌, refl, sym, ap, ◌∙◌, ◌↔◌, Bool, true, false, not, List, [], ◌∷◌, ◌++◌, map,
  Text, In, here, there, length, filter, any, text_eq, text_eq_iff, text_eq_refl, if◌then◌else◌,
  Bool-cases, inl, inr, ◌||◌, arith, In-append,
}
use jaritanet.Base.Members.{In_uncons, In-filter, In_of_filter, In_of_map}

-- The texts in their order, each where it first stands: `[...new Set(texts)]`.
unfoldable pub dedup : List Text → List Text
unfolding filter text_eq
dedup [] = []
dedup (t ∷ ts) = t ∷ filter (λ u. not (text_eq t u)) (dedup ts)

-- No text stands in the list twice.
abbrev pub Unique : List Text → Type 0
Unique [] = Unit
Unique (t ∷ ts) = (¬ In t ts) × Unique ts

-- `set.has(t)`
unfoldable pub has : Text → List Text → Bool
unfolding any text_eq
has t ts = any (λ u. text_eq u t) ts

pub has-In : (t : Text) (ts : List Text) → has t ts ≡ true → In t ts
unfolding has any
has-In t [] h = cc
has-In t (u ∷ us) h = elim (Bool-cases (text_eq u t)) [
  | inl e ↦ subst (λ x. In x (u ∷ us)) ((text_eq_iff u t).0 e) here
  | inr e ↦ there (has-In t us (ap (λ b. b || any (λ v. text_eq v t) us) (sym e) ∙ h))
]

pub In-has : (t : Text) (ts : List Text) → In t ts → has t ts ≡ true
unfolding has any
In-has t [] m = elim m [ ]
In-has t (u ∷ us) here = rw (text_eq_refl t)
In-has t (u ∷ us) (there m) = elim (Bool-cases (text_eq u t)) [
  | inl e ↦ rw e
  | inr e ↦ rw e (In-has t us m)
]

pub has-false : (t : Text) (ts : List Text) → has t ts ≡ false → ¬ In t ts
has-false t ts h m = cc (In-has t ts m)

Unique-filter : (p : Text → Bool) (ts : List Text) → Unique ts → Unique (filter p ts)
unfolding filter
Unique-filter p [] u = tt
Unique-filter p (t ∷ ts) (n, u) = elim (Bool-cases (p t)) [
  | inl e ↦ rw e (λ m. n (In_of_filter p ts m).0, Unique-filter p ts u)
  | inr e ↦ rw e (Unique-filter p ts u)
]

pub dedup-Unique : (ts : List Text) → Unique (dedup ts)
unfolding dedup
dedup-Unique [] = tt
dedup-Unique (t ∷ ts) = (
  λ m. cc ((In_of_filter (λ u. not (text_eq t u)) (dedup ts) m).1, text_eq_refl t),
  Unique-filter (λ u. not (text_eq t u)) (dedup ts) (dedup-Unique ts),
)

pub In-dedup : (ts : List Text) {t : Text} → In t ts → In t (dedup ts)
unfolding dedup
In-dedup [] m = elim m [ ]
In-dedup (t ∷ ts) here = here
In-dedup (t ∷ ts) {t = x} (there m) = elim (Bool-cases (text_eq t x)) [
  | inl e ↦ subst (λ z. In z (dedup (t ∷ ts))) ((text_eq_iff t x).0 e) here
  | inr e ↦ there (In-filter (λ u. not (text_eq t u)) (dedup ts) (In-dedup ts m) (ap not e))
]

pub In_of_dedup : (ts : List Text) {t : Text} → In t (dedup ts) → In t ts
unfolding dedup
In_of_dedup [] m = m
In_of_dedup (t ∷ ts) here = here
In_of_dedup (t ∷ ts) (there m) =
    there (In_of_dedup ts (In_of_filter (λ u. not (text_eq t u)) (dedup ts) m).0)

length-filter : (p : Text → Bool) (ts : List Text) → length (filter p ts) ≤ length ts
unfolding filter
length-filter p [] = omega arith
length-filter p (t ∷ ts) = elim (Bool-cases (p t)) [
  | inl e ↦ rw e (omega (arith, length-filter p ts))
  | inr e ↦ rw e (omega (arith, length-filter p ts))
]

length-dedup : (ts : List Text) → length (dedup ts) ≤ length ts
unfolding dedup
length-dedup [] = omega arith
length-dedup (t ∷ ts) =
    omega (arith, length-dedup ts, length-filter (λ u. not (text_eq t u)) (dedup ts))

filter_keeps :
    (p : Text → Bool) (ts : List Text) {t : Text}
    → length (filter p ts) ≡ length ts
    → In t ts
    → p t ≡ true
unfolding filter
filter_keeps p [] h m = elim m [ ]
filter_keeps p (t ∷ ts) {t = x} h m =
    (elim (p t)
        as (λ b.
          p t ≡ b
          → length (if b then t ∷ filter p ts else filter p ts) ≡ suc (length ts)
          → p x ≡ true) [
            | true ↦ λ e k. elim (In_uncons m) [
              | inl same ↦ ap p (sym same) ∙ e
              | inr n ↦ filter_keeps p ts (omega (arith, k)) n
            ]
            | false ↦
                λ e k. let absurd : ⊥ = omega (arith, k, length-filter p ts) in elim absurd [ ]
          ])
      refl h

filter_all :
    (p : Text → Bool) (ts : List Text) → ((t : Text) → In t ts → p t ≡ true) → filter p ts ≡ ts
unfolding filter
filter_all p [] h = refl
filter_all p (t ∷ ts) h = rw (h t here) (ap (λ us. t ∷ us) (filter_all p ts (λ u m. h u (there m))))

length-dedup-Unique : (ts : List Text) → length (dedup ts) ≡ length ts → Unique ts
unfolding dedup
length-dedup-Unique [] h = tt
length-dedup-Unique (t ∷ ts) h =
    let p : Text → Bool = λ u. not (text_eq t u) in
    let l = length-filter p (dedup ts) in
    let k = length-dedup ts in
    let full : length (filter p (dedup ts)) ≡ length (dedup ts) = omega (arith, h, l, k) in
    (
      λ m. cc (filter_keeps p (dedup ts) full (In-dedup ts m), text_eq_refl t),
      length-dedup-Unique ts (omega (arith, h, l, k)),
    )

pub Unique-dedup : (ts : List Text) → Unique ts → dedup ts ≡ ts
unfolding dedup
Unique-dedup [] u = refl
Unique-dedup (t ∷ ts) (n, u) = rw (Unique-dedup ts u) (
    ap (λ us. t ∷ us)
      (filter_all (λ v. not (text_eq t v)) ts
        (λ v m. elim (Bool-cases (text_eq t v)) [
          | inl e ↦ elim (n (subst (λ z. In z ts) (sym ((text_eq_iff t v).0 e)) m)) [ ]
          | inr e ↦ ap not e
        ])))

-- `new Set(texts).size === texts.length` exactly for texts without repetition.
pub length-dedup_iff : (ts : List Text) → (length (dedup ts) ≡ length ts) ↔ Unique ts
length-dedup_iff ts = (length-dedup-Unique ts, λ u. ap length (Unique-dedup ts u))

-- Unique texts stay so under a function that tells them apart.
pub Unique-map :
    (f : Text → Text) (ts : List Text)
    → ((s t : Text) → f s ≡ f t → s ≡ t)
    → Unique ts
    → Unique (map f ts)
Unique-map f [] inj u = tt
Unique-map f (t ∷ ts) inj (n, u) = (
  λ m. let (x, k, e) = In_of_map f ts m in n (subst (λ z. In z ts) (inj x t e) k),
  Unique-map f ts inj u,
)

pub Unique-append :
    (ts us : List Text)
    → Unique ts
    → Unique us
    → ((t : Text) → In t ts → ¬ In t us)
    → Unique (ts ++ us)
Unique-append [] us u v d = v
Unique-append (t ∷ ts) us (n, u) v d = (
  λ m. elim (In-append ts m) [ inl k ↦ n k | inr k ↦ d t here k ],
  Unique-append ts us u v (λ s k. d s (there k)),
)

filter-append :
    (p : Text → Bool) (ts us : List Text) → filter p (ts ++ us) ≡ filter p ts ++ filter p us
unfolding filter
filter-append p [] us = refl
filter-append p (t ∷ ts) us = elim (Bool-cases (p t)) [
  | inl e ↦ rw e (ap (λ vs. t ∷ vs) (filter-append p ts us))
  | inr e ↦ rw e (filter-append p ts us)
]

pub has-append : (t u : Text) (ts : List Text) → has t (ts ++ u ∷ []) ≡ (has t ts || text_eq u t)
unfolding has any
has-append t u [] = elim (Bool-cases (text_eq u t)) [ inl e ↦ rw e | inr e ↦ rw e ]
has-append t u (v ∷ vs) = elim (Bool-cases (text_eq v t)) [
  | inl e ↦ rw e
  | inr e ↦ rw e (has-append t u vs)
]

filter_new :
    (p : Text → Bool) (t : Text) (a b : Bool)
    → p t ≡ not a
    → filter p (if b then [] else t ∷ []) ≡ (if a || b then [] else t ∷ [])
unfolding filter
filter_new p t true true h = refl
filter_new p t true false h = rw h
filter_new p t false true h = refl
filter_new p t false false h = rw h

-- `set.add(t)`
pub dedup-append :
    (ts : List Text) (t : Text)
    → dedup (ts ++ t ∷ []) ≡ dedup ts ++ (if has t ts then [] else t ∷ [])
unfolding dedup has any filter
dedup-append [] t = refl
dedup-append (u ∷ us) t =
    let p : Text → Bool = λ v. not (text_eq u v) in
    ap (λ vs. u ∷ filter p vs) (dedup-append us t)
    ∙ ap (λ vs. u ∷ vs)
        (filter-append p (dedup us) (if has t us then [] else t ∷ [])
          ∙ ap (λ vs. filter p (dedup us) ++ vs) (filter_new p t (text_eq u t) (has t us) refl))

pub apart : {s t : Text} → s ≢ t → text_eq s t ≡ false
apart {s = s} {t = t} n = elim (Bool-cases (text_eq s t)) [
  | inl e ↦ elim (n ((text_eq_iff s t).0 e)) [ ]
  | inr e ↦ e
]
