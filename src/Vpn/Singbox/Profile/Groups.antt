-- ===== src/Vpn/Singbox/Profile/Groups.antt =====
-- The names that the groups of a profile of packages/vpn/src/singbox.ts refer to.
use jaritanet.Base.{
  List, [], ◌∷◌, map, Text, In, here, there, All, All-append, In-append_left, In-append_right,
  In-map, In-flat_map, flat_map,
}
use jaritanet.Vpn.Users.{VpnUser}
use jaritanet.Vpn.Singbox.Data.{ResolvedNode, ResolvedExit, Outbound, tag_of, urltest, selector}
use jaritanet.Vpn.Singbox.Outbounds.{
  Client, entry_select, auto_tags, entry_tags, pick_tags, single_groups, host_groups, many_groups,
  entry_groups, exit_tag, exit_outbound, exit_groups,
}
use jaritanet.Vpn.Singbox.Profile.Leaves.{references, All-map, All-flat_map}

-- The outbound refers only to names with the property.
abbrev pub Refers : (Text → Type 0) → Outbound → Type 0
Refers P o = All P (references o)

module _ (P : Text → Type 0) (user : VpnUser) (client : Client) where
  abbrev pub Own : List Outbound → Type 0
  Own os = (o : Outbound) → In o os → P (tag_of o)

  single_groups-Refers :
      (n : ResolvedNode) (ts : List Text)
      → All P ts
      → All P (entry_tags user client n)
      → Own (single_groups user client n ts)
      → All (Refers P) (single_groups user client n ts)
  unfolding single_groups urltest selector
  single_groups-Refers n [] h k own = (tt, tt)
  single_groups-Refers n (a ∷ []) h k own = ((h.0, (h.0, tt)), tt)
  single_groups-Refers n (a ∷ b ∷ more) h k own =
      let auto = own _ here in
      (h, ((auto, All-append P (entry_tags user client n) _ k (auto, tt)), tt))

  host_groups-Refers :
      (n : ResolvedNode)
      → All P (auto_tags user client n)
      → Own (host_groups user client n)
      → All (Refers P) (host_groups user client n)
  unfolding host_groups urltest selector pick_tags entry_tags auto_tags
  host_groups-Refers n h own =
      let auto = own _ here in
      (h, ((auto, All-append P (entry_tags user client n) _ h (auto, tt)), tt))

  many_groups-Refers :
      (nodes : List ResolvedNode)
      → ((n : ResolvedNode) → In n nodes → All P (auto_tags user client n))
      → Own (many_groups user client nodes)
      → All (Refers P) (many_groups user client nodes)
  unfolding many_groups host_groups urltest selector
  many_groups-Refers nodes h own =
      let hosts = host_groups user client in
      let all = own _ (In-append_right (flat_map hosts nodes) here) in
      let named : (n : ResolvedNode) → In n nodes → P n.name =
        λ n m. own _ (In-append_left _ (In-flat_map hosts m (there here))) in
      All-append (Refers P) (flat_map hosts nodes) _
        (All-flat_map (Refers P) hosts nodes (λ n m.
          host_groups-Refers n (h n m) (λ o d. own o (In-append_left _ (In-flat_map hosts m d)))))
        (
          All-flat_map P (auto_tags user client) nodes h,
          (
            (
              all,
              All-append P (map (λ (n : ResolvedNode). n.name) nodes) _
                  (All-map P (λ (n : ResolvedNode). n.name) nodes named) (all, tt),
            ),
            tt,
          ),
        )

  pub entry_groups-Refers :
      (nodes : List ResolvedNode)
      → ((n : ResolvedNode) → In n nodes → All P (auto_tags user client n))
      → Own (entry_groups user client nodes)
      → All (Refers P) (entry_groups user client nodes)
  unfolding entry_groups auto_tags entry_tags
  entry_groups-Refers [] h own = many_groups-Refers [] h own
  entry_groups-Refers (n ∷ []) h own =
      single_groups-Refers n (auto_tags user client n) (h n here) (h n here) own
  entry_groups-Refers (n ∷ m ∷ nodes) h own = many_groups-Refers (n ∷ m ∷ nodes) h own

  pub exit_groups-Refers :
      (exits : List ResolvedExit)
      → P entry_select
      → Own (exit_groups exits)
      → All (Refers P) (exit_groups exits)
  unfolding exit_groups exit_outbound selector exit_tag
  exit_groups-Refers [] e own = tt
  exit_groups-Refers (x ∷ xs) e own =
      let tagged = λ (y : ResolvedExit) (m : In y (x ∷ xs)).
        own _ (In-append_left _ (In-map exit_outbound m)) in
      let direct = own _ (In-append_right (map exit_outbound (x ∷ xs)) here) in
      All-append (Refers P) (map exit_outbound (x ∷ xs)) _
        (All-map (Refers P) exit_outbound (x ∷ xs) (λ y m. (e, tt)))
        (
          (e, (e, tt)),
          (
            (
              direct,
              All-append P (map exit_tag (x ∷ xs)) _ (All-map P exit_tag (x ∷ xs) tagged)
                  (direct, tt),
            ),
            tt,
          ),
        )
