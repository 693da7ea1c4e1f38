-- ===== src/Base/Sorted.antt =====
-- `texts.toSorted()`: texts in the order of their code units.
use mathlib.Core.Path.{subst}
use jaritanet.Base.{
  ◌≡◌, refl, sym, ap, ◌∙◌, Bool, true, false, ◌&&◌, ◌||◌, List, [], ◌∷◌, if◌then◌else◌, Text, In,
  here, there, All, All_map, All-In, All_of_In, ◌↔◌, ltb, ◌==◌, Bool-cases, inl, inr, ◌⊎◌, arith,
}
use jaritanet.Base.Members.{In_uncons}
use jaritanet.Base.Sets.{Unique}

-- `s < t`
unfoldable pub text_ltb : Text → Text → Bool
text_ltb s [] = false
text_ltb [] (b ∷ t) = true
text_ltb (a ∷ s) (b ∷ t) = ltb a b || (a == b && text_ltb s t)

unfoldable pub insert : Text → List Text → List Text
unfolding text_ltb
insert t [] = t ∷ []
insert t (u ∷ us) = let rest = insert t us in if text_ltb u t then u ∷ rest else t ∷ u ∷ us

unfoldable pub to_sorted : List Text → List Text
unfolding insert
to_sorted [] = []
to_sorted (t ∷ ts) = insert t (to_sorted ts)

text_ltb_irrefl : (s : Text) → text_ltb s s ≡ false
unfolding text_ltb
text_ltb_irrefl [] = refl
text_ltb_irrefl (a ∷ s) = ground (arith, text_ltb_irrefl s)

text_ltb_trans : (s t u : Text) → text_ltb s t ≡ true → text_ltb t u ≡ true → text_ltb s u ≡ true
unfolding text_ltb
text_ltb_trans s t [] h k = cc
text_ltb_trans s [] (c ∷ u) h k = cc
text_ltb_trans [] (b ∷ t) (c ∷ u) h k = refl
text_ltb_trans (a ∷ s) (b ∷ t) (c ∷ u) h k = ground (arith, text_ltb_trans s t u)

text_ltb_total : (s t : Text) → text_ltb s t ≡ false → (s ≡ t) ⊎ (text_ltb t s ≡ true)
unfolding text_ltb
text_ltb_total [] [] h = inl refl
text_ltb_total (a ∷ s) [] h = inr refl
text_ltb_total [] (b ∷ t) h = cc
text_ltb_total (a ∷ s) (b ∷ t) h = ground (arith, text_ltb_total s t)

-- Each text is below all that follow.
abbrev pub Ascending : List Text → Type 0
Ascending [] = Unit
Ascending (t ∷ ts) = All (λ u. text_ltb t u ≡ true) ts × Ascending ts

In-insert : (t : Text) (ts : List Text) {u : Text} → In u (t ∷ ts) → In u (insert t ts)
unfolding insert
In-insert t [] m = m
In-insert t (v ∷ vs) {u = u} m =
    elim (text_ltb v t) as (λ b. In u (if b then v ∷ insert t vs else t ∷ v ∷ vs)) [
      | true ↦ elim (In_uncons m) [
        | inl same ↦ there (In-insert t vs (subst (λ x. In x (t ∷ vs)) same here))
        | inr n ↦ elim (In_uncons n) [
          | inl same ↦ subst (λ x. In x (v ∷ insert t vs)) same here
          | inr k ↦ there (In-insert t vs (there k))
        ]
      ]
      | false ↦ m
    ]

In_of_insert : (t : Text) (ts : List Text) {u : Text} → In u (insert t ts) → In u (t ∷ ts)
unfolding insert
In_of_insert t [] m = m
In_of_insert t (v ∷ vs) {u = u} m =
    (elim (text_ltb v t)
        as (λ b. In u (if b then v ∷ insert t vs else t ∷ v ∷ vs) → In u (t ∷ v ∷ vs)) [
          | true ↦ λ n. elim (In_uncons n) [
            | inl same ↦ subst (λ x. In x (t ∷ v ∷ vs)) same (there here)
            | inr k ↦ elim (In_uncons (In_of_insert t vs k)) [
              | inl same ↦ subst (λ x. In x (t ∷ v ∷ vs)) same here
              | inr l ↦ there (there l)
            ]
          ]
          | false ↦ λ n. n
        ])
      m

pub In-to_sorted : (ts : List Text) {u : Text} → In u ts → In u (to_sorted ts)
unfolding to_sorted
In-to_sorted [] m = m
In-to_sorted (t ∷ ts) here = In-insert t (to_sorted ts) here
In-to_sorted (t ∷ ts) (there m) = In-insert t (to_sorted ts) (there (In-to_sorted ts m))

pub In_of_to_sorted : (ts : List Text) {u : Text} → In u (to_sorted ts) → In u ts
unfolding to_sorted
In_of_to_sorted [] m = m
In_of_to_sorted (t ∷ ts) m = elim (In_uncons (In_of_insert t (to_sorted ts) m)) [
  | inl same ↦ subst (λ x. In x (t ∷ ts)) same here
  | inr k ↦ there (In_of_to_sorted ts k)
]

insert-Ascending :
    (t : Text) (ts : List Text) → (¬ In t ts) → Ascending ts → Ascending (insert t ts)
unfolding insert
insert-Ascending t [] n u = (tt, tt)
insert-Ascending t (v ∷ vs) n (below, u) = elim (Bool-cases (text_ltb v t)) [
  | inl e ↦ rw e (
    All_of_In (λ w. text_ltb v w ≡ true) (insert t vs)
        (λ w m. elim (In_uncons (In_of_insert t vs m)) [
          | inl same ↦ subst (λ x. text_ltb v x ≡ true) same e
          | inr k ↦ All-In (λ w. text_ltb v w ≡ true) vs below k
        ]),
    insert-Ascending t vs (λ m. n (there m)) u,
  )
  | inr e ↦ elim (text_ltb_total v t e) [
    | inl same ↦ elim (n (subst (λ x. In x (v ∷ vs)) same here)) [ ]
    | inr less ↦ rw e ((less, All_map vs (λ w l. text_ltb_trans t v w less l) below), (below, u))
  ]
]

pub to_sorted-Ascending : (ts : List Text) → Unique ts → Ascending (to_sorted ts)
unfolding to_sorted
to_sorted-Ascending [] u = tt
to_sorted-Ascending (t ∷ ts) (n, u) =
    insert-Ascending t (to_sorted ts) (λ m. n (In_of_to_sorted ts m)) (to_sorted-Ascending ts u)

below_self : (t : Text) (ts : List Text) → All (λ u. text_ltb t u ≡ true) ts → ¬ In t ts
below_self t ts h m = cc (All-In (λ u. text_ltb t u ≡ true) ts h m, text_ltb_irrefl t)

-- The texts behind the first, of two ascending lists with the same first and the same members.
rest_In :
    (t : Text) (ts us : List Text)
    → Ascending (t ∷ ts)
    → ((x : Text) → In x (t ∷ ts) → In x (t ∷ us))
    → (x : Text) → In x ts
    → In x us
rest_In t ts us (below, _) h x m = elim (In_uncons (h x (there m))) [
  | inl same ↦ elim (below_self t ts below (subst (λ y. In y ts) (sym same) m)) [ ]
  | inr k ↦ k
]

heads_eq :
    (t u : Text) (ts us : List Text)
    → Ascending (t ∷ ts)
    → Ascending (u ∷ us)
    → In t (u ∷ us)
    → In u (t ∷ ts)
    → t ≡ u
heads_eq t u ts us (a, _) (b, _) m n = elim (In_uncons m) [
  | inl same ↦ sym same
  | inr k ↦ elim (In_uncons n) [
    | inl same ↦ same
    | inr l ↦
        let absurd : ⊥ = cc (
          text_ltb_trans t u t (All-In (λ x. text_ltb t x ≡ true) ts a l)
              (All-In (λ x. text_ltb u x ≡ true) us b k),
          text_ltb_irrefl t,
        ) in
        elim absurd [ ]
  ]
]

-- Ascending lists with the same members are the same.
pub Ascending-eq :
    (ts us : List Text) → Ascending ts → Ascending us → ((x : Text) → In x ts ↔ In x us) → ts ≡ us
Ascending-eq [] [] a b h = refl
Ascending-eq [] (u ∷ us) a b h = elim ((h u).1 here) [ ]
Ascending-eq (t ∷ ts) [] a b h = elim ((h t).0 here) [ ]
Ascending-eq (t ∷ ts) (u ∷ us) a b h =
    let e = heads_eq t u ts us a b ((h t).0 here) ((h u).1 here) in
    let c = subst (λ x. Ascending (x ∷ us)) (sym e) b in
    let there_to : (x : Text) → In x (t ∷ ts) → In x (t ∷ us) =
      λ x m. subst (λ y. In x (y ∷ us)) (sym e) ((h x).0 m) in
    let back_to : (x : Text) → In x (t ∷ us) → In x (t ∷ ts) =
      λ x m. (h x).1 (subst (λ y. In x (y ∷ us)) e m) in
    ap (λ x. x ∷ ts) e
    ∙ ap (λ xs. u ∷ xs)
        (Ascending-eq ts us a.1 b.1
          (λ x. (rest_In t ts us a there_to x, rest_In t us ts c back_to x)))
