-- ===== src/Services/Egress.antt =====
-- What the network policy of a service of packages/k8s/src/service.ts lets out.
use jaritanet.Base.{
  ℕ, Bool, true, false, not, ◌&&◌, ◌||◌, ◌==◌, Option, none, some, List, [], ◌∷◌, Text, codes,
  text_eq, any,
}
use jaritanet.Services.{Peer, pods_labelled, namespaces_labelled, ip_block, EgressRule, Objects}
use jaritanet.Services.Create.{deployment}

-- The addresses of private networks, of a link and of a carrier's or the tailnet's shared range.
abbrev pub not_public : List Text
not_public =
    codes "10.0.0.0/8"
    ∷ codes "172.16.0.0/12"
    ∷ codes "192.168.0.0/16"
    ∷ codes "169.254.0.0/16"
    ∷ codes "100.64.0.0/10"
    ∷ []

-- Where a connection goes. Whether an address lies in a range, and what labels a pod or a namespace
-- has, is the cluster's to say.
pub record Destination {ℓ} (Address : Type ℓ) : Type ℓ where
  pub address : Address
  pub pod_label : Text → Option Text
  pub namespace_label : Text → Option Text
  pub protocol : Text
  pub port : ℕ

abbrev pub is_labelled : Option Text → Text → Bool
is_labelled none value = false
is_labelled (some v) value = text_eq v value

-- Kubernetes lets a connection out if some rule has the destination among its peers and ports.
module _ {ℓ} {Address : Type ℓ} (lies_in : Address → Text → Bool) (d : Destination Address) where
  unfoldable pub admits : Peer → Bool
  unfolding text_eq any
  admits (pods_labelled key value) = is_labelled (d.pod_label key) value
  admits (namespaces_labelled key value) = is_labelled (d.namespace_label key) value
  admits (ip_block range except) = lies_in d.address range && not (any (lies_in d.address) except)

  abbrev port_matches : List (Text × ℕ) → Bool
  port_matches [] = true
  port_matches (p ∷ ps) = any (λ (q : Text × ℕ). text_eq q.0 d.protocol && q.1 == d.port) (p ∷ ps)

  rule_admits : List EgressRule → Bool
  unfolding admits any text_eq
  rule_admits rules = any (λ (r : EgressRule). any admits r.to && port_matches r.ports) rules

  -- A policy is about a pod's connections if it selects the pod and names their direction; what it
  -- is not about, it lets out.
  unfoldable pub lets_out : Objects → Bool
  unfolding rule_admits text_eq any
  lets_out o = elim o.policy [
    | none ↦ true
    | some policy ↦
        not (
          text_eq policy.pod_app o.deployment.label_app
          && any (text_eq (codes "Egress")) policy.policy_types)
        || rule_admits policy.egress
  ]
