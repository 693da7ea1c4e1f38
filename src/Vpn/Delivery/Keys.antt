-- ===== src/Vpn/Delivery/Keys.antt =====
-- The keys of the profiles of packages/vpn/src/profiles.ts.
use mathlib.Core.List.{append-nil}
use jaritanet.Base.Options.{head_eq, tail_eq}
use jaritanet.Base.{
  ℕ, ◌≡◌, ◌⊎◌, inl, inr, refl, sym, ap, ◌∙◌, true, false, ◌==◌, List, [], ◌∷◌, ◌++◌, map, any, Text,
  codes, In, here, there, All, All-In, Bool-cases, arith,
}
use jaritanet.Base.Slices.{Lacks}
use jaritanet.Base.Members.{In_of_map, In_of_flat_map}
use jaritanet.Vpn.Users.{VpnUser, is_name, all_units}
use jaritanet.Vpn.Singbox.Data.{ResolvedNode}
use jaritanet.Vpn.Delivery.{
  Variant, Entry, plain_variant, sbr_variant, is_fronted, variants, entry_of, entries,
}

units-Lack : (s : Text) → all_units s ≡ true → Lacks b'.' s
unfolding all_units
units-Lack [] h = tt
units-Lack (c ∷ s) h = (ground arith, units-Lack s (ground arith))

name-Lacks : (s : Text) → is_name s ≡ true → Lacks b'.' s
unfolding is_name
name-Lacks [] h = tt
name-Lacks (c ∷ s) h = (ground arith, units-Lack s (ground arith))

dot_apart : (c : ℕ) → (c == b'.') ≡ false → b'.' ≡ c → ⊥
dot_apart c h e = ground arith

-- Texts without a dot are told apart by what stands before a dot.
dotted_injective :
    (u v r t : Text) → Lacks b'.' u → Lacks b'.' v → u ++ b'.' ∷ r ≡ v ++ b'.' ∷ t → u ≡ v
dotted_injective [] [] r t h k e = refl
dotted_injective [] (d ∷ v) r t h (q, k) e = absurd (dot_apart d q (head_eq e))
dotted_injective (c ∷ u) [] r t (p, h) k e = absurd (dot_apart c p (sym (head_eq e)))
dotted_injective (c ∷ u) (d ∷ v) r t (p, h) (q, k) e =
    cc (head_eq e, dotted_injective u v r t h k (tail_eq e))

dotted_plain : (u v r : Text) → Lacks b'.' v → u ++ b'.' ∷ r ≡ v → ⊥
dotted_plain [] [] r k e = cc e
dotted_plain [] (d ∷ v) r (q, k) e = dot_apart d q (head_eq e)
dotted_plain (c ∷ u) [] r k e = cc e
dotted_plain (c ∷ u) (d ∷ v) r (q, k) e = dotted_plain u v r k (tail_eq e)

one_of_two :
    (v : Variant)
    → In v (plain_variant ∷ sbr_variant ∷ [])
    → (v ≡ plain_variant) ⊎ (v ≡ sbr_variant)
one_of_two v here = inl refl
one_of_two v (there here) = inr refl
one_of_two v (there (there m)) = elim m [ ]

more : (v : Variant) → In v (plain_variant ∷ []) → In v (plain_variant ∷ sbr_variant ∷ [])
more v here = here
more v (there m) = elim m [ ]

one_of :
    (nodes : List ResolvedNode) (v : Variant)
    → In v (variants nodes)
    → (v ≡ plain_variant) ⊎ (v ≡ sbr_variant)
unfolding variants
one_of nodes v m = elim (Bool-cases (any is_fronted nodes)) [
  | inl h ↦ one_of_two v (rw h at m)
  | inr h ↦ one_of_two v (more v (rw h at m))
]

-- An entry is one of the two variants of a user.
variants_of :
    (users : List VpnUser) (nodes : List ResolvedNode) (e : Entry)
    → In e (entries users nodes)
    → (u : VpnUser) × In u users × ((entry_of u plain_variant ≡ e) ⊎ (entry_of u sbr_variant ≡ e))
unfolding entries
variants_of users nodes e m =
    let (u, n, k) = In_of_flat_map (λ u. map (entry_of u) (variants nodes)) users m in
    let (v, l, q) = In_of_map (entry_of u) (variants nodes) k in
    (
      u,
      n,
      elim (one_of nodes v l) [
        | inl p ↦ inl (ap (entry_of u) (sym p) ∙ q)
        | inr p ↦ inr (ap (entry_of u) (sym p) ∙ q)
      ],
    )

module _ (u v : VpnUser) (w x : Variant) (e f : Entry) (p : entry_of u w ≡ e)
    (q : entry_of v x ≡ f) where
  keys_eq : e.key ≡ f.key → u.name ++ w.suffix ≡ v.name ++ x.suffix
  keys_eq s = ap (λ (y : Entry). y.key) p ∙ s ∙ sym (ap (λ (y : Entry). y.key) q)

  entries_agree :
      u.name ≡ v.name → w.client ≡ x.client → (e.user.name ≡ f.user.name) × (e.client ≡ f.client)
  entries_agree n c = (
    sym (ap (λ (y : Entry). y.user.name) p) ∙ n ∙ ap (λ (y : Entry). y.user.name) q,
    sym (ap (λ (y : Entry). y.client) p) ∙ c ∙ ap (λ (y : Entry). y.client) q,
  )

same_key :
    (u v : VpnUser) (e f : Entry)
    → Lacks b'.' u.name
    → Lacks b'.' v.name
    → (entry_of u plain_variant ≡ e) ⊎ (entry_of u sbr_variant ≡ e)
    → (entry_of v plain_variant ≡ f) ⊎ (entry_of v sbr_variant ≡ f)
    → e.key ≡ f.key
    → (e.user.name ≡ f.user.name) × (e.client ≡ f.client)
same_key u v e f h k (inl p) (inl q) s =
    let names =
      sym (append-nil u.name)
      ∙ keys_eq u v plain_variant plain_variant e f p q s
      ∙ append-nil v.name in
    entries_agree u v plain_variant plain_variant e f p q names refl
same_key u v e f h k (inl p) (inr q) s = absurd (
    dotted_plain v.name u.name (codes "sbr") h
      (sym (keys_eq u v plain_variant sbr_variant e f p q s) ∙ append-nil u.name))
same_key u v e f h k (inr p) (inl q) s = absurd (
    dotted_plain u.name v.name (codes "sbr") k
      (keys_eq u v sbr_variant plain_variant e f p q s ∙ append-nil v.name))
same_key u v e f h k (inr p) (inr q) s =
    entries_agree u v sbr_variant sbr_variant e f p q
      (dotted_injective u.name v.name (codes "sbr") (codes "sbr") h k
        (keys_eq u v sbr_variant sbr_variant e f p q s))
      refl

-- Among users whose names are well-formed, two entries of one key are the same user's and for the
-- same client.
pub entries-keys :
    (users : List VpnUser) (nodes : List ResolvedNode) (e f : Entry)
    → All (λ (u : VpnUser). is_name u.name ≡ true) users
    → In e (entries users nodes)
    → In f (entries users nodes)
    → e.key ≡ f.key
    → (e.user.name ≡ f.user.name) × (e.client ≡ f.client)
entries-keys users nodes e f valid m n s =
    let (u, k, p) = variants_of users nodes e m in
    let (v, l, q) = variants_of users nodes f n in
    same_key u v e f (name-Lacks u.name (All-In _ users valid k))
      (name-Lacks v.name (All-In _ users valid l)) p q s
