-- ===== src/Infra/TailnetPolicy/Fleet.antt =====
-- The tags and the tests of a policy, `buildTailnetPolicy` of packages/infra/src/tailnet-policy.ts.
use jaritanet.Base.{ℕ, suc, ◌++◌, codes, ◌≡◌, ◌≢◌, ◌↔◌, some, List, [], Text, In, ◌⊎◌}
use jaritanet.Base.Sets.{dedup, dedup-Unique, In-dedup, In_of_dedup}
use jaritanet.Base.Sorted.{In-to_sorted, In_of_to_sorted, to_sorted-Ascending, Ascending-eq}
use jaritanet.Infra.TailnetPolicy.Hosts.{dotted}
use jaritanet.Infra.TailnetPolicy.{
  TailnetPolicyArgs, PodNetwork, Destination, peer_destination, probe_destination, fleet_tags,
  build_tailnet_policy,
}

fleet_tags-In : (tags : List Text) {t : Text} → In t tags ↔ In t (fleet_tags tags)
unfolding fleet_tags
fleet_tags-In tags = (
  λ m. In-to_sorted (dedup tags) (In-dedup tags m),
  λ m. In_of_dedup tags (In_of_to_sorted (dedup tags) m),
)

-- The tags of a policy depend on which there are, not on their order or their number.
fleet_tags_eq :
    (tags others : List Text)
    → ((t : Text) → In t tags ↔ In t others)
    → fleet_tags tags ≡ fleet_tags others
unfolding fleet_tags
fleet_tags_eq tags others h =
    Ascending-eq (fleet_tags tags) (fleet_tags others)
      (to_sorted-Ascending (dedup tags) (dedup-Unique tags))
      (to_sorted-Ascending (dedup others) (dedup-Unique others))
      (λ t. (
        λ m. (fleet_tags-In others).0 ((h t).0 ((fleet_tags-In tags).1 m)),
        λ m. (fleet_tags-In tags).0 ((h t).1 ((fleet_tags-In others).1 m)),
      ))

-- The same settings with other tags.
abbrev pub with_tags : TailnetPolicyArgs → List Text → TailnetPolicyArgs
with_tags args tags = record args { tags = tags }

-- The policy is the same for tags in another order or with repetitions.
pub build_tailnet_policy-tags :
    (args : TailnetPolicyArgs) (tags others : List Text)
    → ((t : Text) → In t tags ↔ In t others)
    → build_tailnet_policy (with_tags args tags) ≡ build_tailnet_policy (with_tags args others)
unfolding build_tailnet_policy
build_tailnet_policy-tags args tags others h = rw (fleet_tags_eq tags others h)

-- The destinations of the dataplane, one by one.
abbrev IsPlanned : TailnetPolicyArgs → Destination → Type 0
IsPlanned args d =
    ((peer : Text) × In peer args.cluster_peers × (peer_destination peer ≡ d))
    ⊎ ((network : PodNetwork) × (args.pod_network ≡ some network)
        × (args.cluster_peers ≢ [])
        × (probe_destination network ≡ d))

-- The network's range: its address and the length of its prefix.
abbrev pub HasRange : PodNetwork → ℕ → ℕ → ℕ → ℕ → Type 0
HasRange network a b c d = (bits : Text) × (network.cidr ≡ dotted a b c d ++ (codes "/" ++ bits))

-- What a policy has to let through: port 10250, the kubelet's, of each peer, and, where there is a
-- peer, port 443 of the pod network's first host, which is the one behind its address.
abbrev pub IsNeeded : TailnetPolicyArgs → Text → Type 0
IsNeeded args dst =
    ((peer : Text) × In peer args.cluster_peers × (dst ≡ peer ++ codes ":10250"))
    ⊎ ((network : PodNetwork) × (args.pod_network ≡ some network)
        × (args.cluster_peers ≢ [])
        × ((a : ℕ) × (b : ℕ) × (c : ℕ) × (d : ℕ) × HasRange network a b c d
            × (dst ≡ dotted a b c (suc d) ++ codes ":443")))

abbrev pub IsDotted : TailnetPolicyArgs → Type 0
IsDotted args =
    (network : PodNetwork)
    → args.pod_network ≡ some network
    → (a : ℕ) × (b : ℕ) × (c : ℕ) × (d : ℕ) × HasRange network a b c d
