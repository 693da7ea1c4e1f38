-- ===== src/Vpn/Singbox/Profile/Leaves.antt =====
-- The tags and references of the leaves of a profile of packages/vpn/src/singbox.ts.
use mathlib.Core.Path.{subst}
use mathlib.Core.List.{map-append}
use jaritanet.Base.{
  ◌≡◌, refl, sym, true, Option, none, some, List, [], ◌∷◌, ◌++◌, map, Text, In, here, there, All,
  All-append, All_map, In-append_left, In-append_right, In-map, flat_map, Bool-cases, inl, inr,
}
use jaritanet.Vpn.Users.{VpnUser}
use jaritanet.Vpn.Singbox.Data.{
  ResolvedNode, Outbound, hysteria2, vless, vless_xhttp, urltest_group, selector_group, shadowsocks,
  tag_of, hy2, hy2_tag, hy2_tags, hy2_ports, reality, reality_tag, reality_tags, xhttp, xhttp_tag,
}
use jaritanet.Vpn.Singbox.Outbounds.{
  Client, is_admin, xhttp_entry, xhttp_tags, auto_tags, reality_leaves, xhttp_leaves, hy2_leaves,
  hy2_password, uuid_of, node_leaves,
}

abbrev pub option_list : Option Text → List Text
option_list none = []
option_list (some t) = t ∷ []

-- The outbounds that an outbound refers to.
abbrev pub references : Outbound → List Text
references (hysteria2 o) = []
references (vless o) = []
references (vless_xhttp o) = []
references (urltest_group g) = g.outbounds
references (selector_group g) = g.outbounds ++ option_list g.default
references (shadowsocks o) = o.detour ∷ []

-- A tag is that of one of the outbounds.
abbrev pub Declares : List Outbound → Text → Type 0
Declares os t = In t (map tag_of os)

pub All-map {ℓ κ μ} :
    {A : Type ℓ} {B : Type κ} (Q : B → Type μ) (f : A → B) (xs : List A)
    → ((x : A) → In x xs → Q (f x))
    → All Q (map f xs)
All-map Q f [] h = tt
All-map Q f (x ∷ xs) h = (h x here, All-map Q f xs (λ y m. h y (there m)))

pub All-flat_map {ℓ κ μ} :
    {A : Type ℓ} {B : Type κ} (Q : B → Type μ) (f : A → List B) (xs : List A)
    → ((x : A) → In x xs → All Q (f x))
    → All Q (flat_map f xs)
unfolding flat_map
All-flat_map Q f [] h = tt
All-flat_map Q f (x ∷ xs) h =
    All-append Q (f x) (flat_map f xs) (h x here) (All-flat_map Q f xs (λ y m. h y (there m)))

-- A tag that some function of the list's elements has.
Declares-map {ℓ} :
    {A : Type ℓ} (f : A → Outbound) (g : A → Text) (xs : List A)
    → ((x : A) → tag_of (f x) ≡ g x)
    → All (Declares (map f xs)) (map g xs)
Declares-map f g xs same =
    All-map (Declares (map f xs)) g xs
      (λ x m. subst (Declares (map f xs)) (same x) (In-map tag_of (In-map f m)))

pub Declares-left :
    (xs ys : List Outbound) (ts : List Text) → All (Declares xs) ts → All (Declares (xs ++ ys)) ts
Declares-left xs ys ts h = All_map ts (λ t m. rw map-append (In-append_left (map tag_of ys) m)) h

pub Declares-right :
    (xs ys : List Outbound) (ts : List Text) → All (Declares ys) ts → All (Declares (xs ++ ys)) ts
Declares-right xs ys ts h = All_map ts (λ t m. rw map-append (In-append_right (map tag_of xs) m)) h

Declares-flat_map {ℓ} :
    {A : Type ℓ} (f : A → List Outbound) (xs : List A) (x : A) (t : Text)
    → In x xs
    → Declares (f x) t
    → Declares (flat_map f xs) t
unfolding flat_map
Declares-flat_map f [] x t m d = elim m [ ]
Declares-flat_map f (y ∷ xs) x t here d =
    rw map-append (In-append_left (map tag_of (flat_map f xs)) d)
Declares-flat_map f (y ∷ xs) x t (there m) d =
    rw map-append (In-append_right (map tag_of (f y)) (Declares-flat_map f xs x t m d))

abbrev pub NoReference : Outbound → Type 0
NoReference o = references o ≡ []

module _ (user : VpnUser) (client : Client) where
  reality_declared :
      (n : ResolvedNode) → All (Declares (reality_leaves user client n)) (reality_tags n)
  unfolding reality_leaves reality_tags reality
  reality_declared n =
      Declares-map (reality n (uuid_of user client n)) (reality_tag n) n.reality.server_names
        (λ sni. refl)

  hy2_leaves-admin :
      (n : ResolvedNode)
      → is_admin user ≡ true
      → hy2_leaves user client n ≡ map (hy2 n (hy2_password user client n)) (hy2_ports n)
  unfolding hy2_leaves
  hy2_leaves-admin n h = rw h

  hy2_declared :
      (n : ResolvedNode)
      → is_admin user ≡ true
      → All (Declares (hy2_leaves user client n)) (hy2_tags n)
  unfolding hy2_tags hy2
  hy2_declared n h =
      subst (λ os. All (Declares os) (hy2_tags n)) (sym (hy2_leaves-admin n h))
        (Declares-map (hy2 n (hy2_password user client n)) (hy2_tag n) (hy2_ports n) (λ port. refl))

  xhttp_declared :
      (n : ResolvedNode) → All (Declares (xhttp_leaves user client n)) (xhttp_tags client n)
  unfolding xhttp_leaves xhttp_tags xhttp
  xhttp_declared n =
      elim (xhttp_entry client n)
        as (λ o.
          All
            (Declares (elim o [ none ↦ [] | some cdn ↦ xhttp cdn n (uuid_of user client n) ∷ [] ]))
            (elim o [ none ↦ [] | some _ ↦ xhttp_tag n ∷ [] ])) [
              | none ↦ tt
              | some cdn ↦ (here, tt)
            ]

  -- The leaves of a node have all its tags.
  leaves_declared :
      (n : ResolvedNode) → All (Declares (node_leaves user client n)) (auto_tags user client n)
  unfolding node_leaves auto_tags
  leaves_declared n =
      let r = reality_leaves user client n in
      let x = xhttp_leaves user client n in
      let y = hy2_leaves user client n in
      let reached = Declares-left r (x ++ y) (reality_tags n) (reality_declared n) in
      let fronted =
        Declares-right r (x ++ y) (xhttp_tags client n)
          (Declares-left x y (xhttp_tags client n) (xhttp_declared n)) in
      let plain =
        All-append (Declares (r ++ (x ++ y))) (reality_tags n) (xhttp_tags client n) reached
          fronted in
      elim (Bool-cases (is_admin user)) [
        | inl h ↦
            rw (h, auto_tags)
              (All-append (Declares (r ++ (x ++ y))) (hy2_tags n)
                (reality_tags n ++ xhttp_tags client n)
                (Declares-right r (x ++ y) (hy2_tags n)
                  (Declares-right x y (hy2_tags n) (hy2_declared n h)))
                plain)
        | inr h ↦ rw (h, auto_tags) plain
      ]

  pub all_leaves_declared :
      (nodes : List ResolvedNode) (n : ResolvedNode)
      → In n nodes
      → All (Declares (flat_map (node_leaves user client) nodes)) (auto_tags user client n)
  all_leaves_declared nodes n m =
      All_map (auto_tags user client n)
        (λ t d. Declares-flat_map (node_leaves user client) nodes n t m d) (leaves_declared n)

  -- No leaf refers to anything.
  pub leaves_refer : (n : ResolvedNode) → All NoReference (node_leaves user client n)
  unfolding node_leaves reality_leaves xhttp_leaves hy2_leaves reality xhttp hy2
  leaves_refer n =
      All-append NoReference (reality_leaves user client n) _
        (All-map NoReference (reality n (uuid_of user client n)) n.reality.server_names
          (λ sni m. refl))
        (All-append NoReference (xhttp_leaves user client n) (hy2_leaves user client n)
          (elim (xhttp_entry client n)
            as (λ o.
              All NoReference
                (elim o [ none ↦ [] | some cdn ↦ xhttp cdn n (uuid_of user client n) ∷ [] ])) [
                  | none ↦ tt
                  | some cdn ↦ (refl, tt)
                ])
          (elim (Bool-cases (is_admin user)) [
            | inl h ↦ subst (All NoReference) (sym (hy2_leaves-admin n h)) (
                All-map NoReference (hy2 n (hy2_password user client n)) (hy2_ports n)
                  (λ port m. refl))
            | inr h ↦ rw h tt
          ]))
