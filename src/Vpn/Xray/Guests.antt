-- ===== src/Vpn/Xray/Guests.antt =====
-- Which connections of guests the configuration of packages/vpn/src/xray.ts lets out.
use mathlib.Core.Path.{subst}
use jaritanet.Base.{
  not, ◌≡◌, inl, inr, refl, sym, ap, ◌∙◌, Bool, true, false, ◌&&◌, ◌||◌, List, [], ◌∷◌, Text,
  text_eq, text_eq_iff, text_eq_refl, any, filter, In, here, there, In-map, Bool-cases,
}
use jaritanet.Base.Members.{In_of_map, In-filter, In_of_filter}
use jaritanet.Vpn.Users.{Role, admin, guest, VpnUser}
use jaritanet.Vpn.Xray.{XrayConf, Keypair, is_guest, guests, xray_config}
use jaritanet.Vpn.Xray.Routing.{Connection, not_internet, is_opened, goes_out, goes_out-rules}

any-In : (t : Text) (ts : List Text) → In t ts → any (text_eq t) ts ≡ true
unfolding any
any-In t [] m = elim m [ ]
any-In t (s ∷ ts) here = rw text_eq_refl refl
any-In t (s ∷ ts) (there m) =
    rw (any-In t ts m)
      (elim (text_eq t s) as (λ b. (b || true) ≡ true) [ true ↦ refl | false ↦ refl ])

In_of_any : (t : Text) (ts : List Text) → any (text_eq t) ts ≡ true → In t ts
unfolding any
In_of_any t [] h = cc h
In_of_any t (s ∷ ts) h = elim (Bool-cases (text_eq t s)) [
  | inl e ↦ subst (λ x. In x (s ∷ ts)) (sym ((text_eq_iff t s).0 e)) here
  | inr e ↦ there (In_of_any t ts (rw e at h))
]

-- The users that share a name with this one share its role.
abbrev pub IsKnown : VpnUser → List VpnUser → Type 0
IsKnown user users =
    In user users × ((v : VpnUser) → In v users → v.name ≡ user.name → v.role ≡ user.role)

role_guest : (a b : VpnUser) → a.role ≡ b.role → is_guest a ≡ is_guest b
role_guest a b e = ap (λ (r : Role). elim r [ admin ↦ false | guest ↦ true ]) e

any-guests :
    (user : VpnUser) (users : List VpnUser)
    → IsKnown user users
    → any (text_eq user.name) (guests users) ≡ is_guest user
unfolding guests
any-guests user users (m, same) =
    let name_of = λ (u : VpnUser). u.name in
    elim (Bool-cases (is_guest user)) [
      | inl h ↦
          any-In user.name (guests users) (In-map name_of (In-filter is_guest users m h)) ∙ sym h
      | inr h ↦ elim (Bool-cases (any (text_eq user.name) (guests users))) [
        | inr k ↦ k ∙ sym h
        | inl k ↦
            let (v, n, e) =
              In_of_map name_of (filter is_guest users) (In_of_any user.name (guests users) k) in
            let (l, g) = In_of_filter is_guest users n in
            absurd (cc (g, h, role_guest v user (same v l e)))
      ]
    ]

-- For a user of the roster whose name no user of another role has, a connection to an address goes
-- out exactly if the user is no guest or the address is the internet's, and it is not one that Xray
-- takes for private, apart from the gateway's resolver and the tailnet. This is with Xray as
-- documented, whichever addresses it takes to lie in a range.
pub xray_config-guests {ℓ} :
    {Address : Type ℓ} (lies_in : Address → Text → Bool) (is_private : Address → Bool)
    (xray : XrayConf) (keys : Keypair) (short_id path : Text) (mint : Text → Text)
    (users : List VpnUser) (user : VpnUser) (c : Connection Address)
    → IsKnown user users
    → goes_out lies_in is_private user.name c (xray_config xray keys short_id path mint users) ≡ (
        not (is_guest user && any (lies_in c.address) not_internet)
        && (is_opened lies_in c || not (is_private c.address)))
unfolding xray_config
xray_config-guests lies_in is_private xray keys short_id path mint users user c h =
    goes_out-rules lies_in is_private user.name c (xray_config xray keys short_id path mint users)
      (guests users) refl refl
    ∙ ap
        (λ g.
          not (g && any (lies_in c.address) not_internet)
          && (is_opened lies_in c || not (is_private c.address)))
        (any-guests user users h)
