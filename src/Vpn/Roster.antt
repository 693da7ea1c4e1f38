-- ===== src/Vpn/Roster.antt =====
-- Which rosters `parseVpnUsers` of packages/vpn/src/users.ts accepts, and what it makes of them.
use mathlib.Core.Path.{subst}
use mathlib.Core.List.{append_assoc, append-nil}
use jaritanet.Base.{
  ◌≡◌, ◌≢◌, ◌⊎◌, inl, inr, refl, sym, ap, ◌∙◌, Bool, true, false, List, [], ◌∷◌, ◌++◌, map,
  if◌then◌else◌, Text, trim, is_truthy, text_eq, text_eq_iff, any, split, All, In, here, there,
  Bool-cases,
}
use jaritanet.Vpn.Users.{
  Parsed, users, invalid_name, duplicate_name, VpnUser, is_name, parse_token, parse_from, is_comma,
  parse_vpn_users,
}

-- What the tokens stand for: each that is not blank, with its role.
abbrev entries_from : List Text → List VpnUser
entries_from [] = []
entries_from (token ∷ tokens) =
    let rest = entries_from tokens in
    if is_truthy (trim token) then parse_token (trim token) ∷ rest else rest

abbrev pub entries : Text → List VpnUser
entries raw = entries_from (split is_comma raw)

-- Behind the users so far, each name is well-formed and unlike all names before it.
abbrev pub IsAccepted : List VpnUser → List VpnUser → Type 0
IsAccepted found [] = Unit
IsAccepted found (u ∷ us) =
    (is_name u.name ≡ true)
    × All (λ (v : VpnUser). v.name ≢ u.name) found
    × IsAccepted (found ++ u ∷ []) us

abbrev pub names : List VpnUser → List Text
names us = map (λ (u : VpnUser). u.name) us

-- The first entry that is not accepted, with what stands before it.
pub record IsRefused (found us : List VpnUser) (u : VpnUser) : Type 0 where
  pub before : List VpnUser
  pub behind : List VpnUser
  pub place : us ≡ before ++ u ∷ behind
  pub accepted : IsAccepted found before

-- The three ends of the loop.
abbrev Ends : List VpnUser → List VpnUser → Parsed → Type 0
Ends found us r =
    ((r ≡ users (found ++ us)) × IsAccepted found us)
    ⊎ (((u : VpnUser) × IsRefused found us u × (is_name u.name ≡ false) × (r ≡ invalid_name u.name))
        ⊎ ((u : VpnUser) × (h : IsRefused found us u) × (is_name u.name ≡ true)
            × In u.name (names (found ++ h.before))
            × (r ≡ duplicate_name u.name)))

abbrev seen : Text → List VpnUser → Bool
seen name found = any (λ (u : VpnUser). text_eq u.name name) found

not_seen :
    (name : Text) (found : List VpnUser)
    → seen name found ≡ false
    → All (λ (v : VpnUser). v.name ≢ name) found
unfolding any
not_seen name [] h = tt
not_seen name (u ∷ us) h = elim (Bool-cases (text_eq u.name name)) [
  | inl e ↦ absurd (cc (h, e))
  | inr e ↦ (λ p. cc ((text_eq_iff u.name name).1 p, e), not_seen name us (rw e at h))
]

seen-In : (name : Text) (found : List VpnUser) → seen name found ≡ true → In name (names found)
unfolding any
seen-In name [] h = cc h
seen-In name (u ∷ us) h = elim (Bool-cases (text_eq u.name name)) [
  | inl e ↦ subst (λ n. In n (names (u ∷ us))) ((text_eq_iff u.name name).0 e) here
  | inr e ↦ there (seen-In name us (rw e at h))
]

-- An accepted entry goes in front of how the rest ends.
Ends-accept :
    (found us : List VpnUser) (u : VpnUser) (r : Parsed)
    → is_name u.name ≡ true
    → All (λ (v : VpnUser). v.name ≢ u.name) found
    → Ends (found ++ u ∷ []) us r
    → Ends found (u ∷ us) r
Ends-accept found us u r n f (inl (e, h)) =
    inl (e ∙ ap users (append_assoc found (u ∷ []) us), (n, f, h))
Ends-accept found us u r n f (inr (inl (v, h, w, e))) = inr (
    inl (
      v,
      record {
        before = u ∷ h.before;
        behind = h.behind;
        place = ap (λ vs. u ∷ vs) h.place;
        accepted = (n, f, h.accepted);
      },
      w,
      e,
    ))
Ends-accept found us u r n f (inr (inr (v, h, w, m, e))) = inr (
    inr (
      v,
      record {
        before = u ∷ h.before;
        behind = h.behind;
        place = ap (λ vs. u ∷ vs) h.place;
        accepted = (n, f, h.accepted);
      },
      w,
      subst (λ vs. In v.name (names vs)) (append_assoc found (u ∷ []) h.before) m,
      e,
    ))

abbrev first_refused : (found us : List VpnUser) (u : VpnUser) → IsRefused found (u ∷ us) u
first_refused found us u = record { before = []; behind = us; place = refl; accepted = tt }

parse_from-Ends :
    (found : List VpnUser) (tokens : List Text)
    → Ends found (entries_from tokens) (parse_from found tokens)
unfolding parse_from
parse_from-Ends found [] = inl (ap users (sym (append-nil found)), tt)
parse_from-Ends found (token ∷ tokens) =
    let u = parse_token (trim token) in
    let us = entries_from tokens in
    let ends =
      λ (es : List VpnUser) (r : Parsed) (p : entries_from (token ∷ tokens) ≡ es)
          (q : parse_from found (token ∷ tokens) ≡ r) (e : Ends found es r).
        subst (λ xs. Ends found xs (parse_from found (token ∷ tokens))) (sym p)
          (subst (Ends found es) (sym q) e) in
    elim (Bool-cases (is_truthy (trim token))) [
      | inr blank ↦
          ends us (parse_from found tokens) (rw blank refl) (rw blank refl)
            (parse_from-Ends found tokens)
      | inl h ↦ elim (Bool-cases (is_name u.name)) [
        | inr bad ↦
            ends (u ∷ us) (invalid_name u.name) (rw h refl) (rw (h, bad) refl)
              (inr (inl (u, first_refused found us u, bad, refl)))
        | inl good ↦ elim (Bool-cases (seen u.name found)) [
          | inl again ↦
              ends (u ∷ us) (duplicate_name u.name) (rw h refl) (rw (h, good, again) refl) (
                inr (
                  inr (
                    u,
                    first_refused found us u,
                    good,
                    subst (λ vs. In u.name (names vs)) (sym (append-nil found))
                        (seen-In u.name found again),
                    refl,
                  )))
          | inr fresh ↦
              ends (u ∷ us) (parse_from (found ++ u ∷ []) tokens) (rw h refl)
                (rw (h, good, fresh) refl)
                (Ends-accept found us u (parse_from (found ++ u ∷ []) tokens) good
                  (not_seen u.name found fresh) (parse_from-Ends (found ++ u ∷ []) tokens))
        ]
      ]
    ]

-- A roster is read in one of three ways: as its entries in order, each name well-formed and unlike
-- all before it; or with an error that names the first entry whose name is not well-formed; or with
-- one that names the first entry whose name stands before it already.
pub parse_vpn_users-cases :
    (raw : Text)
    → ((parse_vpn_users raw ≡ users (entries raw)) × IsAccepted [] (entries raw))
      ⊎ (((u : VpnUser) × IsRefused [] (entries raw) u
            × (is_name u.name ≡ false)
            × (parse_vpn_users raw ≡ invalid_name u.name))
          ⊎ ((u : VpnUser) × (h : IsRefused [] (entries raw) u) × (is_name u.name ≡ true)
              × In u.name (names h.before)
              × (parse_vpn_users raw ≡ duplicate_name u.name)))
unfolding parse_vpn_users
parse_vpn_users-cases raw = parse_from-Ends [] (split is_comma raw)
