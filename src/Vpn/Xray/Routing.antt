-- ===== src/Vpn/Xray/Routing.antt =====
-- What Xray does with a connection by the configuration of packages/vpn/src/xray.ts.
use jaritanet.Base.{
  ℕ, ◌==◌, not, split, ◌≡◌, refl, ap, ◌∙◌, Bool, true, false, ◌&&◌, ◌||◌, Option, none, some, List,
  [], ◌∷◌, if◌then◌else◌, Text, codes, text_eq, any,
}
use jaritanet.Base.Decimal.{digits_value}
use jaritanet.Vpn.Xray.{
  FinalRule, freedom_final_rules, XrayOutbound, freedom, blackhole, XrayConfig, XrayRule,
  xray_rules,
}

-- The addresses that are not the internet's: of the tailnet and its shared range, of the machine
-- itself, of private networks, of a link and of unique local networks.
abbrev pub not_internet : List Text
not_internet =
    codes "100.64.0.0/10"
    ∷ codes "fd7a:115c:a1e0::/48"
    ∷ codes "127.0.0.0/8"
    ∷ codes "0.0.0.0/8"
    ∷ codes "::1/128"
    ∷ codes "10.0.0.0/8"
    ∷ codes "172.16.0.0/12"
    ∷ codes "192.168.0.0/16"
    ∷ codes "169.254.0.0/16"
    ∷ codes "fc00::/7"
    ∷ []

pub data Network : Type 0 where
  tcp udp : Network

abbrev pub network_name : Network → Text
network_name tcp = codes "tcp"
network_name udp = codes "udp"

-- A connection to an address, not to a name.
pub record Connection {ℓ} (Address : Type ℓ) : Type ℓ where
  pub address : Address
  pub network : Network
  pub port : ℕ

-- What no rule takes goes to the first outbound.
abbrev first_tag : List XrayOutbound → Text
first_tag [] = []
first_tag (freedom name rules ∷ more) = name
first_tag (blackhole name ∷ more) = name

-- What the gateway opens of its private side: its resolver and the tailnet.
abbrev pub is_opened {ℓ} : {Address : Type ℓ} → (Address → Text → Bool) → Connection Address → Bool
is_opened lies_in c =
    (lies_in c.address (codes "127.0.0.1/32") && (c.port == 53))
    || (lies_in c.address (codes "100.64.0.0/10")
        || lies_in c.address (codes "fd7a:115c:a1e0::/48"))

chosen {ℓ} :
    {A : Type ℓ} (u i n : Bool) (b d : A)
    → n ≡ true
    → (if u && (i && true) then some b else if true && (true && n) then some d else none)
      ≡ some (if u && i then b else d)
chosen true true n b d e = refl
chosen true false n b d e = rw e refl
chosen false i n b d e = rw e refl

resolver_rule : (a n p : Bool) → n ≡ true → (((a || false) && n) && p) ≡ (a && p)
resolver_rule true n p e = rw e refl
resolver_rule false n p e = refl

tailnet_rule : (a b : Bool) → (((a || (b || false)) && true) && true) ≡ (a || b)
tailnet_rule true b = refl
tailnet_rule false true = refl
tailnet_rule false false = refl

in_order :
    (p q x y z : Bool)
    → p ≡ x
    → q ≡ y
    → (if p then true else if q then true else z) ≡ ((x || y) || z)
in_order p q true y z e f = rw e refl
in_order p q false true z e f = rw (e, f) refl
in_order p q false false z e f = rw (e, f) refl

abbrev pub ways_out : List XrayOutbound
ways_out = freedom (codes "direct") freedom_final_rules ∷ blackhole (codes "block") ∷ []

-- Xray by its documentation. Whether an address lies in a range, and which addresses it takes for
-- private by itself, is Xray's to say.
module _ {ℓ} {Address : Type ℓ} (lies_in : Address → Text → Bool) (is_private : Address → Bool)
    (email : Text) (c : Connection Address) where
  abbrev user_matches : Option (List Text) → Bool
  user_matches none = true
  user_matches (some emails) = any (text_eq email) emails

  abbrev ip_matches : Option (List Text) → Bool
  ip_matches none = true
  ip_matches (some ranges) = any (lies_in c.address) ranges

  unfoldable network_matches : Option Text → Bool
  unfolding any text_eq split
  network_matches none = true
  network_matches (some names) =
      any (text_eq (network_name c.network)) (split (λ u. u == b',') names)

  -- The tag of the first rule that matches.
  unfoldable pub routed : List XrayRule → Option Text
  unfolding any text_eq network_matches
  routed [] = none
  routed (rule ∷ rules) =
      let later = routed rules in
      if user_matches rule.user && (ip_matches rule.ip && network_matches rule.network)
      then some rule.outbound_tag
      else later

  unfoldable final_matches : FinalRule → Bool
  unfolding any network_matches text_eq digits_value
  final_matches rule =
      (any (lies_in c.address) rule.ip && network_matches rule.network)
      && elim rule.port [ none ↦ true | some port ↦ c.port == digits_value port ]

  -- Freedom's own rules, the first that matches; after them it refuses what is private.
  unfoldable finally : List FinalRule → Bool
  unfolding final_matches text_eq
  finally [] = not (is_private c.address)
  finally (rule ∷ rules) =
      let later = finally rules in
      if final_matches rule then text_eq rule.action (codes "allow") else later

  -- Whether the outbound of a tag connects; no outbound of the tag, no connection.
  unfoldable connects : List XrayOutbound → Text → Bool
  unfolding finally text_eq
  connects [] tag = false
  connects (freedom name rules ∷ more) tag =
      let later = connects more tag in if text_eq name tag then finally rules else later
  connects (blackhole name ∷ more) tag =
      let later = connects more tag in if text_eq name tag then false else later

  unfoldable pub goes_out : XrayConfig → Bool
  unfolding routed connects
  goes_out config =
      connects config.outbounds
        (elim (routed config.rules) [ none ↦ first_tag config.outbounds | some tag ↦ tag ])

  both_networks : network_matches (some (codes "tcp,udp")) ≡ true
  unfolding network_matches any text_eq split
  both_networks =
      elim c.network
        as (λ n. any (text_eq (network_name n)) (split (λ u. u == b',') (codes "tcp,udp")) ≡ true) [
          | tcp ↦ refl
          | udp ↦ refl
        ]

  routed-rules :
      (gs : List Text)
      → routed (xray_rules gs)
        ≡ some (
            if any (text_eq email) gs && any (lies_in c.address) not_internet
            then codes "block"
            else codes "direct")
  unfolding routed xray_rules any network_matches
  routed-rules [] = chosen false false _ (codes "block") (codes "direct") both_networks
  routed-rules (g ∷ gs) =
      chosen (any (text_eq email) (g ∷ gs)) (any (lies_in c.address) not_internet) _ (codes "block")
        (codes "direct") both_networks

  connects-direct :
      connects ways_out (codes "direct") ≡ (is_opened lies_in c || not (is_private c.address))
  unfolding connects finally final_matches text_eq any network_matches digits_value
  connects-direct =
      in_order _ _ (lies_in c.address (codes "127.0.0.1/32") && (c.port == 53)) _ _
        (resolver_rule (lies_in c.address (codes "127.0.0.1/32")) _ (c.port == 53) both_networks)
        (tailnet_rule (lies_in c.address (codes "100.64.0.0/10"))
          (lies_in c.address (codes "fd7a:115c:a1e0::/48")))

  connects-tag :
      (b : Bool)
      → connects ways_out (if b then codes "block" else codes "direct")
        ≡ (not b && (is_opened lies_in c || not (is_private c.address)))
  unfolding connects text_eq
  connects-tag true = refl
  connects-tag false = connects-direct

  -- What the rules for some guests come to, with both outbounds.
  pub goes_out-rules :
      (config : XrayConfig) (gs : List Text)
      → config.outbounds ≡ ways_out
      → config.rules ≡ xray_rules gs
      → goes_out config ≡ (
          not (any (text_eq email) gs && any (lies_in c.address) not_internet)
          && (is_opened lies_in c || not (is_private c.address)))
  unfolding goes_out
  goes_out-rules config gs o r =
      let chosen_tag = any (text_eq email) gs && any (lies_in c.address) not_internet in
      ap
        (λ (p : List XrayOutbound × List XrayRule).
          connects p.0 (elim (routed p.1) [ none ↦ first_tag p.0 | some tag ↦ tag ]))
        (λ i. (o i, r i))
      ∙ ap (λ tag. connects ways_out (elim tag [ none ↦ codes "direct" | some t ↦ t ]))
          (routed-rules gs)
      ∙ connects-tag chosen_tag
