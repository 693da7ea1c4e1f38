-- ===== src/Cluster.antt =====
-- The pairings of Cilium and Kubernetes that are tested, packages/hetzner/src/compat.ts.
pub mod Minors
mod Examples
use jaritanet.Base.{
  ℕ, ◌+◌, ◌*◌, Bool, true, false, ◌||◌, Option, none, some, List, [], ◌∷◌, ◌++◌, ◌==◌, ltb,
  if◌then◌else◌, ◌>>=◌, Text, codes, text_eq, span, is_digit, is_truthy,
}
use jaritanet.Base.Decimal.{digits_value}

-- The key of a minor, and a number to compare it by, which a double holds exactly below 2 ^ 53.
pub record Minor : Type 0 where
  pub key : Text
  pub ord : ℕ

-- The messages of `checkCiliumSupport`, by what they name.
pub data Mismatch : Type 0 where
  no_cilium_minor : Text → Mismatch
  no_k3s_minor : Text → Mismatch
  not_in_table : Text → Mismatch
  outside : Text → Text → Text → Text → Text → Mismatch

-- `CILIUM_K8S_SUPPORT`; a key is a number, a dot and a number, so it is no name that every object
-- has.
abbrev pub cilium_k8s_support : List (Text × (Text × Text))
cilium_k8s_support =
    (codes "1.17", (codes "1.29", codes "1.32"))
    ∷ (codes "1.18", (codes "1.30", codes "1.33"))
    ∷ (codes "1.19", (codes "1.31", codes "1.34"))
    ∷ (codes "1.20", (codes "1.33", codes "1.36"))
    ∷ []

unfoldable pub range_of : Text → List (Text × (Text × Text)) → Option (Text × Text)
unfolding text_eq
range_of key [] = none
range_of key ((k, r) ∷ rest) = if text_eq k key then some r else range_of key rest

-- Digits, a dot and digits at the start of a text.
unfoldable pub minor_behind : Text → Text → Option Minor
unfolding span is_truthy digits_value
minor_behind major [] = none
minor_behind major (c ∷ rest) =
    let minor = (span is_digit rest).0 in
    if c == b'.'
    then (if is_truthy minor
        then some (record {
          key = major ++ c ∷ minor;
          ord = digits_value major * 1000 + digits_value minor;
        })
        else none)
    else none

unfoldable pub minor_here : Text → Option Minor
unfolding span is_truthy minor_behind
minor_here s =
    let (major, rest) = span is_digit s in if is_truthy major then minor_behind major rest else none

-- `/(\d+)\.(\d+)/.exec(version)`: the first place where there is a match; fewer digits before the
-- dot than there are never match.
unfoldable pub minor_of : Text → Option Minor
unfolding minor_here
minor_of [] = none
minor_of (c ∷ s) = elim (minor_here (c ∷ s)) [ some m ↦ some m | none ↦ minor_of s ]

abbrev ord_of : Text → ℕ
ord_of version = elim (minor_of version) [ none ↦ 0 | some m ↦ m.ord ]

unfoldable pub check_range : Minor → Text → Minor → Option (Text × Text) → Option Mismatch
unfolding minor_of
check_range cilium k3s_version k8s none = some (not_in_table cilium.key)
check_range cilium k3s_version k8s (some (min, max)) =
    if ltb k8s.ord (ord_of min) || ltb (ord_of max) k8s.ord
    then some (outside cilium.key min max k3s_version k8s.key)
    else none

-- `none` is `undefined`: the two pair.
unfoldable pub check_cilium_support : Text → Text → Option Mismatch
unfolding minor_of range_of check_range
check_cilium_support cilium_version k3s_version = elim (minor_of cilium_version) [
  | none ↦ some (no_cilium_minor cilium_version)
  | some cilium ↦ elim (minor_of k3s_version) [
    | none ↦ some (no_k3s_minor k3s_version)
    | some k8s ↦ check_range cilium k3s_version k8s (range_of cilium.key cilium_k8s_support)
  ]
]
