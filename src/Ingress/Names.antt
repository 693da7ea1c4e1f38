-- ===== src/Ingress/Names.antt =====
-- The Pulumi names of the routes, `createIngressRoute` of packages/ingress/src/ingress.ts.
use mathlib.Core.Path.{subst}
use jaritanet.Base.{
  ℕ, ◌≡◌, refl, sym, ap, ◌∙◌, none, some, ◌⊎◌, List, [], ◌∷◌, ◌++◌, Text, codes, length,
  length-append, last?, flat_map, In, here, there, arith, inl, inr,
}
use jaritanet.Base.Options.{head_eq, tail_eq}
use jaritanet.Base.Members.{In_uncons}
use jaritanet.Base.Sets.{Unique}

no_longer : (t : ℕ) (ts w : Text) → ¬ (w ≡ t ∷ (ts ++ w))
no_longer t ts w e =
    let same = ap length e in let sum = length-append ts w in omega (arith, same, sum)

-- Texts with the same ending are told apart by what is before it.
pub ending_cancel : (s t w : Text) → s ++ w ≡ t ++ w → s ≡ t
ending_cancel [] [] w e = refl
ending_cancel [] (b ∷ t) w e = elim (no_longer b t w e) [ ]
ending_cancel (a ∷ s) [] w e = elim (no_longer a s w (sym e)) [ ]
ending_cancel (a ∷ s) (b ∷ t) w e =
    ap (λ c. c ∷ s) (head_eq e) ∙ ap (λ u. b ∷ u) (ending_cancel s t w (tail_eq e))

last-append : (s : Text) (c : ℕ) (w : Text) → last? (s ++ c ∷ w) ≡ last? (c ∷ w)
last-append [] c w = refl
last-append (a ∷ []) c w = refl
last-append (a ∷ b ∷ s) c w = last-append (b ∷ s) c w

-- The names that a service's two routes have.
abbrev pub route_resource : Text → Text
route_resource service = service ++ codes "-ingress-route"

abbrev pub redirect_resource : Text → Text
redirect_resource service = service ++ codes "-ingress-redirect"

abbrev pub resources : Text → List Text
resources service = route_resource service ∷ redirect_resource service ∷ []

route≢redirect : (s t : Text) → ¬ (route_resource s ≡ redirect_resource t)
route≢redirect s t e =
    let ends : ◌≡◌ {A = ℕ} 101 116 =
      ap (λ o. elim o [ none ↦ 0 | some c ↦ c ])
        (sym (last-append s b'-' (codes "ingress-route"))
          ∙ ap last? e
          ∙ last-append t b'-' (codes "ingress-redirect")) in
    omega (arith, ends)

-- A name among those of several services is of one of them.
from_service :
    (ss : List Text) {n : Text}
    → In n (flat_map resources ss)
    → (s : Text) × In s ss × ((n ≡ route_resource s) ⊎ (n ≡ redirect_resource s))
unfolding flat_map
from_service [] m = elim m [ ]
from_service (s ∷ ss) here = (s, here, inl refl)
from_service (s ∷ ss) (there here) = (s, here, inr refl)
from_service (s ∷ ss) (there (there m)) = let (t, k, e) = from_service ss m in (t, there k, e)

route-In : (s : Text) (ss : List Text) → In (route_resource s) (flat_map resources ss) → In s ss
route-In s ss m =
    let (t, k, e) = from_service ss m in
    elim e [
      | inl same ↦ subst (λ x. In x ss) (sym (ending_cancel s t (codes "-ingress-route") same)) k
      | inr other ↦ elim (route≢redirect s t other) [ ]
    ]

redirect-In :
    (s : Text) (ss : List Text) → In (redirect_resource s) (flat_map resources ss) → In s ss
redirect-In s ss m =
    let (t, k, e) = from_service ss m in
    elim e [
      | inl other ↦ elim (route≢redirect t s (sym other)) [ ]
      | inr same ↦ subst (λ x. In x ss) (sym (ending_cancel s t (codes "-ingress-redirect") same)) k
    ]

pub resources-Unique : (ss : List Text) → Unique ss → Unique (flat_map resources ss)
unfolding flat_map
resources-Unique [] u = tt
resources-Unique (s ∷ ss) (n, u) = (
  λ m. elim (In_uncons m) [
    | inl same ↦ route≢redirect s s (sym same)
    | inr k ↦ n (route-In s ss k)
  ],
  (λ m. n (redirect-In s ss m), resources-Unique ss u),
)
