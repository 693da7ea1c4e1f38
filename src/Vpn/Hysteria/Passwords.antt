-- ===== src/Vpn/Hysteria/Passwords.antt =====
-- The users that the server of packages/vpn/src/hysteria.ts accepts, and the passwords of the
-- profiles of packages/vpn/src/singbox.ts.
use mathlib.Core.Path.{subst}
use mathlib.Core.List.{append_assoc}
use jaritanet.Base.Decimal.{decimal}
use jaritanet.Base.{
  ℕ, refl, join, In-append_left, ◌≡◌, sym, ap, ◌∙◌, true, false, none, some, List, [], ◌∷◌, ◌++◌,
  map, Text, codes, text_eq, text_eq_iff, In, here, there, In-map, Bool-cases, inl, inr,
}
use jaritanet.Base.Members.{In_of_map, In-filter, In_of_filter, In_uncons}
use jaritanet.Base.Dicts.{Dict, lookup, put, lookup-put_same, lookup-put_other}
use jaritanet.Base.Sets.{Unique}
use jaritanet.Vpn.Users.{VpnUser}
use jaritanet.Vpn.Singbox.Data.{ResolvedNode}
use jaritanet.Vpn.Singbox.Outbounds.{Client, is_admin, hy2_password}
use jaritanet.Vpn.Hysteria.{
  HysteriaConf, HysteriaObjects, HysteriaContainer, hysteria_container, config, userpass_block,
  Generated, admins, mint, passwords_from, passwords, text_or_undefined, credentials,
  create_hysteria,
}

module _ (g : Generated) where
  put_keeps :
      (n name : Text) (found : Dict)
      → lookup n found ≡ some (mint g n)
      → lookup n (put name (mint g name) found) ≡ some (mint g n)
  put_keeps n name found h = elim (Bool-cases (text_eq name n)) [
    | inl e ↦
        subst (λ x. lookup x (put name (mint g name) found) ≡ some (mint g x))
          ((text_eq_iff name n).0 e) (lookup-put_same name (mint g name) found)
    | inr e ↦ lookup-put_other name n (mint g name) found e ∙ h
  ]

  passwords_from-keeps :
      (n : Text) (found : Dict) (us : List VpnUser)
      → lookup n found ≡ some (mint g n)
      → lookup n (passwords_from g found us) ≡ some (mint g n)
  unfolding passwords_from
  passwords_from-keeps n found [] h = h
  passwords_from-keeps n found (u ∷ us) h =
      passwords_from-keeps n (put u.name (mint g u.name) found) us (put_keeps n u.name found h)

  lookup-passwords_from :
      (found : Dict) (us : List VpnUser) (u : VpnUser)
      → In u us
      → lookup u.name (passwords_from g found us) ≡ some (mint g u.name)
  unfolding passwords_from
  lookup-passwords_from found [] u m = elim m [ ]
  lookup-passwords_from found (v ∷ us) u here =
      passwords_from-keeps u.name (put u.name (mint g u.name) found) us
        (lookup-put_same u.name (mint g u.name) found)
  lookup-passwords_from found (v ∷ us) u (there m) =
      lookup-passwords_from (put v.name (mint g v.name) found) us u m

-- Users of one name are one user, where no name stands twice.
same_user :
    (us : List VpnUser) (a b : VpnUser)
    → Unique (map (λ (u : VpnUser). u.name) us)
    → In a us
    → In b us
    → a.name ≡ b.name
    → a ≡ b
same_user [] a b u m n e = elim m [ ]
same_user (v ∷ us) a b (new, u) m n e =
    let names : List Text = map (λ (w : VpnUser). w.name) us in
    elim (In_uncons m) [
      | inl p ↦ elim (In_uncons n) [
        | inl q ↦ sym p ∙ q
        | inr l ↦
            elim (new (
              subst (λ t. In t names) (sym (ap (λ (w : VpnUser). w.name) p ∙ e))
                (In-map (λ (w : VpnUser). w.name) l))) [ ]
      ]
      | inr k ↦ elim (In_uncons n) [
        | inl q ↦
            elim (new (
              subst (λ t. In t names) (e ∙ sym (ap (λ (w : VpnUser). w.name) q))
                (In-map (λ (w : VpnUser). w.name) k))) [ ]
        | inr l ↦ same_user us a b u k l e
      ]
    ]

-- The line of a user and password in a configuration.
abbrev pub user_line : Text × Text → Text
user_line (name, password) = codes "    " ++ (name ++ (codes ": " ++ password))

-- A configuration ends in its users, by password.
abbrev pub Accepts : Text → List (Text × Text) → Type 0
Accepts file accepted =
    (before : Text) × (file
      ≡ before
        ++ (codes "\nauth:\n  type: userpass\n  userpass:\n"
            ++ (join (codes "\n") (map user_line accepted) ++ codes "\n")))

abbrev pub file_name : ℕ → Text
file_name port = codes "config-" ++ (decimal port ++ codes ".yaml")

-- Some container is run with the file, whose users these are.
abbrev pub Serves : HysteriaObjects → ℕ → List (Text × Text) → Type 0
Serves o port accepted =
    (file : Text) × (container : HysteriaContainer) × In (file_name port, file) o.files
    × In container o.containers
    × (container.args
        ≡ codes "server" ∷ codes "-c" ∷ (codes "/etc/hysteria/" ++ file_name port) ∷ [])
    × Accepts file accepted

regroup {ℓ} :
    {A : Type ℓ} (a b c d rest : List A)
    → a ++ (b ++ (c ++ (d ++ rest))) ≡ (a ++ (b ++ (c ++ d))) ++ rest
regroup a b c d rest = simp append_assoc

config-Accepts :
    (g : Generated) (users : List VpnUser) (port : ℕ)
    → Accepts (config g users port) (credentials g users)
unfolding config userpass_block
config-Accepts g users port =
    let listen = codes "listen: :" ++ decimal port in
    let tls = codes "\ntls:\n  cert: /etc/hysteria/cert.pem\n  key: /etc/hysteria/key.pem\n" in
    let obfs = codes "obfs:\n  type: salamander\n  salamander:\n    password: " in
    let password = g.password (codes "hysteria-obfs") in
    (listen ++ (tls ++ (obfs ++ password)), regroup listen tls obfs password _)

module _ (g : Generated) (conf : HysteriaConf) (users : List VpnUser) (entry_label : Text) where
  serves :
      (port : ℕ)
      → In port (conf.port ∷ conf.alt_ports)
      → Serves (create_hysteria g conf users entry_label) port (credentials g users)
  unfolding create_hysteria hysteria_container
  serves port m = (
    config g users port,
    hysteria_container port,
    In-append_left _ (In-map (λ p. (file_name p, config g users p)) m),
    In-map hysteria_container m,
    refl,
    config-Accepts g users port,
  )

module _ (g : Generated) (conf : HysteriaConf) (users : List VpnUser) (entry_label : Text)
    (user : VpnUser) (client : Client) (n : ResolvedNode) where
  -- On each port the server runs with a configuration that lists the same users and passwords. An
  -- admin's profile has the name and password of one of them, and a guest's name is none of theirs,
  -- among users without a repeated name and with the server's passwords on the node.
  pub create_hysteria-admins :
      In user users
      → Unique (map (λ (u : VpnUser). u.name) users)
      → n.hysteria.passwords ≡ (create_hysteria g conf users entry_label).keys.passwords
      → (accepted : List (Text × Text)) × ((port : ℕ)
          → In port (conf.port ∷ conf.alt_ports)
          → Serves (create_hysteria g conf users entry_label) port accepted)
        × (is_admin user ≡ true
            → (password : Text) × In (user.name, password) accepted
              × (hy2_password user client n ≡ user.name ++ (codes ":" ++ password)))
        × (is_admin user ≡ false → (password : Text) → ¬ In (user.name, password) accepted)
  unfolding create_hysteria credentials passwords admins hy2_password
  create_hysteria-admins m u e =
      let of_user : VpnUser → Text × Text =
        λ (a : VpnUser). (a.name, text_or_undefined (lookup a.name (passwords g users))) in
      (
        credentials g users,
        serves g conf users entry_label,
        λ is.
            let found : lookup user.name (passwords g users) ≡ some (mint g user.name) =
              lookup-passwords_from g [] (admins users) user (In-filter is_admin users m is) in
            (
              mint g user.name,
              subst (λ p. In p (credentials g users))
                  (ap (λ o. (user.name, text_or_undefined o)) found)
                  (In-map of_user (In-filter is_admin users m is)),
              ap
                  (λ o.
                    user.name
                    ++ (codes ":"
                        ++ elim o [ none ↦ codes "undefined" | some password ↦ password ]))
                  (ap (lookup user.name) e ∙ found),
            ),
        λ is_not password k.
            let (a, l, same) = In_of_map of_user (admins users) k in
            let (a_in, a_is) = In_of_filter is_admin users l in
            let a_eq = same_user users a user u a_in m (ap (λ (p : Text × Text). p.0) same) in
            cc (sym a_is ∙ ap is_admin a_eq ∙ is_not),
      )
