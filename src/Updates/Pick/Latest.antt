-- ===== src/Updates/Pick/Latest.antt =====
-- The choice of `pickLatestTag` of scripts/update-apps/versions.ts, in terms of the order of versions.
use mathlib.Core.Path.{subst}
use jaritanet.Base.{
  ℕ, ◌≡◌, ◌≢◌, refl, Option, some, List, [], ◌∷◌, arith, Text, In, All, All-In, All_of_In, last?,
}
use jaritanet.Updates.Compare.{Sign, below, same, above, flip, compare_versions, compare_versions}
use jaritanet.Updates.Order.{IsRelease, key, lex, compare_versions-eq-lex, compare_versions-flip}
use jaritanet.Updates.Pick.{insert, sort, candidates, pick_latest_tag}

lex_trans : (xs ys zs : List ℕ) → lex xs ys ≢ above → lex ys zs ≢ above → lex xs zs ≢ above
unfolding lex
lex_trans [] ys [] p q = cc
lex_trans [] ys (z ∷ zs) p q = cc
lex_trans (x ∷ xs) [] zs p q = absurd (p refl)
lex_trans (x ∷ xs) (y ∷ ys) [] p q = absurd (q refl)
lex_trans (x ∷ xs) (y ∷ ys) (z ∷ zs) p q = ground (arith, lex_trans xs ys zs)

module _ {ℓ κ} {A : Type ℓ} (cmp : A → A → Sign) (Q : A → Type κ) where
  All-insert : (x : A) (ys : List A) → Q x → All Q ys → All Q (insert cmp x ys)
  unfolding insert
  All-insert x [] p h = (p, tt)
  All-insert x (y ∷ ys) p (q, h) =
      elim (cmp x y) as (λ s. All Q (elim s [ above ↦ y ∷ insert cmp x ys | _ ↦ x ∷ y ∷ ys ])) [
        | below ↦ (p, (q, h))
        | same ↦ (p, (q, h))
        | above ↦ (q, All-insert x ys p h)
      ]

  All_of_insert : (x : A) (ys : List A) → All Q (insert cmp x ys) → Q x × All Q ys
  unfolding insert
  All_of_insert x [] = λ h. h
  All_of_insert x (y ∷ ys) =
      elim (cmp x y)
        as (λ s.
          All Q (elim s [ above ↦ y ∷ insert cmp x ys | _ ↦ x ∷ y ∷ ys ]) → Q x × All Q (y ∷ ys)) [
            | below ↦ λ h. h
            | same ↦ λ h. h
            | above ↦ λ h. let (p, r) = All_of_insert x ys h.1 in (p, (h.0, r))
          ]

  All-sort : (xs : List A) → All Q xs → All Q (sort cmp xs)
  unfolding sort
  All-sort [] h = h
  All-sort (x ∷ xs) (p, h) = All-insert x (sort cmp xs) p (All-sort xs h)

  All_of_sort : (xs : List A) → All Q (sort cmp xs) → All Q xs
  unfolding sort
  All_of_sort [] h = h
  All_of_sort (x ∷ xs) h = let (p, r) = All_of_insert x (sort cmp xs) h in (p, All_of_sort xs r)

  All-last? : (xs : List A) (t : A) → All Q xs → last? xs ≡ some t → Q t
  All-last? [] t h e = cc
  All-last? (x ∷ []) t (p, _) e = let q : x ≡ t = cc in subst Q q p
  All-last? (x ∷ y ∷ xs) t (_, h) e = All-last? (y ∷ xs) t h e

-- Sorted lists, for a comparator that orders the elements with a property.
module _ {ℓ κ} {A : Type ℓ} (cmp : A → A → Sign) (P : A → Type κ)
    (turn : (x y : A) → cmp y x ≡ flip (cmp x y))
    (trans : (x y z : A)
      → P x
      → P y
      → P z
      → cmp x y ≢ above
      → cmp y z ≢ above
      → cmp x z ≢ above) where
  NotBefore : A → List A → Type 0
  NotBefore x = All (λ y. cmp x y ≢ above)

  IsSorted : List A → Type 0
  IsSorted [] = Unit
  IsSorted (x ∷ xs) = NotBefore x xs × IsSorted xs

  NotBefore-trans :
      (x y : A) (ys : List A)
      → P x
      → P y
      → All P ys
      → cmp x y ≢ above
      → NotBefore y ys
      → NotBefore x ys
  unfolding NotBefore
  NotBefore-trans x y [] px py h p k = tt
  NotBefore-trans x y (z ∷ zs) px py (pz, h) p (q, k) =
      (trans x y z px py pz p q, NotBefore-trans x y zs px py h p k)

  insert-IsSorted :
      (x : A) (ys : List A) → P x → All P ys → IsSorted ys → IsSorted (insert cmp x ys)
  unfolding insert IsSorted NotBefore
  insert-IsSorted x [] p h k = (tt, tt)
  insert-IsSorted x (y ∷ ys) p (q, h) (k, ks) =
      let here : cmp x y ≢ above → NotBefore x (y ∷ ys) × IsSorted (y ∷ ys) =
        λ e. ((e, NotBefore-trans x y ys p q h e k), (k, ks)) in
      let later : cmp x y ≡ above → NotBefore y (insert cmp x ys) × IsSorted (insert cmp x ys) =
        λ e. (
          All-insert cmp (λ z. cmp y z ≢ above) x ys (λ b. cc (turn x y)) k,
          insert-IsSorted x ys p h ks,
        ) in
      (elim (cmp x y)
          as (λ s.
            cmp x y ≡ s → IsSorted (elim s [ above ↦ y ∷ insert cmp x ys | _ ↦ x ∷ y ∷ ys ])) [
              | below ↦ λ e. here (λ b. cc)
              | same ↦ λ e. here (λ b. cc)
              | above ↦ λ e. later e
            ])
        refl

  sort-IsSorted : (xs : List A) → All P xs → IsSorted (sort cmp xs)
  unfolding sort IsSorted
  sort-IsSorted [] h = tt
  sort-IsSorted (x ∷ xs) (p, h) =
      insert-IsSorted x (sort cmp xs) p (All-sort cmp P xs h) (sort-IsSorted xs h)

  last_follows :
      (xs : List A) (t : A) → IsSorted xs → last? xs ≡ some t → All (λ u. cmp u t ≢ above) xs
  unfolding IsSorted NotBefore
  last_follows [] t h e = tt
  last_follows (x ∷ []) t h e = let q : x ≡ t = cc in (λ b. cc (turn t t, q), tt)
  last_follows (x ∷ y ∷ xs) t (h, k) e =
      (All-last? cmp (λ z. cmp x z ≢ above) (y ∷ xs) t h e, last_follows (y ∷ xs) t k e)

release_trans :
    (a b c : Text)
    → IsRelease a
    → IsRelease b
    → IsRelease c
    → compare_versions a b ≢ above
    → compare_versions b c ≢ above
    → compare_versions a c ≢ above
release_trans a b c ha hb hc p q = rw (compare_versions-eq-lex a c ha hc) (
    lex_trans (key a) (key b) (key c) (rw (compare_versions-eq-lex a b ha hb) at p)
      (rw (compare_versions-eq-lex b c hb hc) at q))

-- On releases, the picked tag is one of the candidates, and no candidate is of a later version:
-- by the numbers of the two, compared from the first on, it is not above the picked one.
pub pick_latest_tag-lex :
    (tags : List Text) (prefix : Option Text) (t : Text)
    → All IsRelease (candidates tags prefix)
    → pick_latest_tag tags prefix ≡ some t
    → In t (candidates tags prefix)
      × All (λ u. lex (key u) (key t) ≢ above) (candidates tags prefix)
unfolding pick_latest_tag
pick_latest_tag-lex tags prefix t h e =
    let tags' : List Text = candidates tags prefix in
    let sorted : List Text = sort compare_versions tags' in
    let releases : All IsRelease sorted = All-sort compare_versions IsRelease tags' h in
    let release : IsRelease t = All-last? compare_versions IsRelease sorted t releases e in
    let follows : All (λ u. compare_versions u t ≢ above) tags' =
      All_of_sort compare_versions (λ u. compare_versions u t ≢ above) tags'
        (last_follows compare_versions IsRelease compare_versions-flip release_trans sorted t
          (sort-IsSorted compare_versions IsRelease compare_versions-flip release_trans tags' h)
          e) in
    let listed : All (λ u. In u tags') tags' = All_of_In (λ u. In u tags') tags' (λ u m. m) in
    (
      All-last? compare_versions (λ u. In u tags') sorted t
          (All-sort compare_versions (λ u. In u tags') tags' listed) e,
      All_of_In (λ u. lex (key u) (key t) ≢ above) tags'
          (λ u m.
            rw (compare_versions-eq-lex u t (All-In IsRelease tags' h m) release) at
              (All-In (λ v. compare_versions v t ≢ above) tags' follows m)),
    )
