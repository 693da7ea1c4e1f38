-- ===== src/Infra/TailnetPolicy.antt =====
-- `buildTailnetPolicy` of packages/infra/src/tailnet-policy.ts, before it is printed as JSON.
pub mod Hosts
pub mod Fleet
use jaritanet.Base.{
  ℕ, suc, Bool, Option, none, some, List, [], ◌∷◌, ◌++◌, map, ◌==◌, if◌then◌else◌, Text, codes,
  split, join, flat_map, is_digit, any, not, split_first,
}
use jaritanet.Base.Decimal.{decimal, digits_value}
use jaritanet.Base.Sets.{dedup}
use jaritanet.Base.Sorted.{to_sorted}
use jaritanet.Dns.{is_dot}

-- The kubelet's port, and the one that a probe of the pod network asks for.
abbrev kubelet_port : ℕ
kubelet_port = 10250

abbrev pod_probe_port : ℕ
pod_probe_port = 443

pub record PodNetwork : Type 0 where
  pub cidr : Text
  pub routers : List Text

pub record TailnetPolicyArgs : Type 0 where
  pub cluster_peers : List Text
  pub owners : List Text
  pub tags : List Text
  pub pod_network : Option PodNetwork

-- What a policy asserts about one source and one destination.
pub record PolicyTest : Type 0 where
  pub src : Text
  pub proto : Text
  pub accept : List Text

pub record Acl : Type 0 where
  pub action : Text
  pub src : List Text
  pub dst : List Text

pub record NodeAttr : Type 0 where
  pub target : List Text
  pub attr : List Text

-- Approvers that are left out are `none`.
pub record Policy : Type 0 where
  pub tag_owners : List (Text × List Text)
  pub acls : List Acl
  pub ssh : List Text
  pub node_attrs : List NodeAttr
  pub auto_approvers : Option (Text × List Text)
  pub tests : List PolicyTest

-- `Number(octet)`, for an octet without spaces, signs and letters: the empty text is zero, and one
-- that is no numeral is NaN, which is `none`.
unfoldable pub number : Text → Option ℕ
unfolding digits_value any
number s = if any (λ c. not (is_digit c)) s then none else some (digits_value s)

-- `octets[3] += 1` and `octets.join(".")`: a place that the array does not have is empty there.
unfoldable pub written : Option ℕ → Text
unfolding decimal
written none = codes "NaN"
written (some n) = decimal n

abbrev next : Option ℕ → Option ℕ
next none = none
next (some n) = some (suc n)

unfoldable pub up_one : List (Option ℕ) → List Text
unfolding written
up_one [] = [] ∷ [] ∷ [] ∷ written none ∷ []
up_one (a ∷ []) = written a ∷ [] ∷ [] ∷ written none ∷ []
up_one (a ∷ b ∷ []) = written a ∷ written b ∷ [] ∷ written none ∷ []
up_one (a ∷ b ∷ c ∷ []) = written a ∷ written b ∷ written c ∷ written none ∷ []
up_one (a ∷ b ∷ c ∷ d ∷ more) =
    written a ∷ written b ∷ written c ∷ written (next d) ∷ map written more

abbrev pub is_slash : ℕ → Bool
is_slash c = c == b'/'

unfoldable pub first_host : Text → Text
unfolding up_one number split_first split join
first_host cidr =
    let address = (split_first is_slash cidr).0 in
    join (codes ".") (up_one (map number (split is_dot address)))

-- A destination of the dataplane, and the protocol that is tested.
abbrev pub Destination : Type 0
Destination = Text × Text

abbrev pub peer_destination : Text → Destination
peer_destination peer = (peer ++ (codes ":" ++ decimal kubelet_port), codes "tcp")

abbrev pub probe_destination : PodNetwork → Destination
probe_destination network =
    (first_host network.cidr ++ (codes ":" ++ decimal pod_probe_port), codes "tcp")

-- `podNetwork && clusterPeers.length`
unfoldable pub pod_destinations : Option PodNetwork → List Text → List Destination
unfolding first_host decimal
pod_destinations none peers = []
pod_destinations (some network) [] = []
pod_destinations (some network) (p ∷ ps) = probe_destination network ∷ []

unfoldable pub dataplane : TailnetPolicyArgs → List Destination
unfolding pod_destinations decimal
dataplane args =
    map peer_destination args.cluster_peers ++ pod_destinations args.pod_network args.cluster_peers

unfoldable pub fleet_tags : List Text → List Text
unfolding dedup to_sorted
fleet_tags tags = to_sorted (dedup tags)

abbrev pub policy_test : Text → Destination → PolicyTest
policy_test tag (dst, proto) = record { src = tag; proto = proto; accept = dst ∷ [] }

unfoldable pub policy_tests : List Text → List Destination → List PolicyTest
unfolding flat_map
policy_tests tags destinations = flat_map (λ tag. map (policy_test tag) destinations) tags

abbrev approvers : Option PodNetwork → Option (Text × List Text)
approvers none = none
approvers (some network) = some (network.cidr, network.routers)

unfoldable pub build_tailnet_policy : TailnetPolicyArgs → Policy
unfolding fleet_tags policy_tests dataplane
build_tailnet_policy args =
    let tags = fleet_tags args.tags in
    record {
      tag_owners = map (λ tag. (tag, args.owners)) tags;
      acls = record { action = codes "accept"; src = codes "*" ∷ []; dst = codes "*:*" ∷ [] } ∷ [];
      ssh = [];
      node_attrs =
          record { target = codes "autogroup:member" ∷ []; attr = codes "funnel" ∷ [] } ∷ [];
      auto_approvers = approvers args.pod_network;
      tests = policy_tests tags (dataplane args);
    }
