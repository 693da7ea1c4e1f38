-- ===== src/Vpn/Examples.antt =====
-- Runs of the VPN's functions, and each theorem on them at a concrete input.
use jaritanet.Base.{◌≡◌, refl, some, [], ◌∷◌, map, Text, codes, flat_map}
use jaritanet.Vpn.Users.{VpnUser, admin, guest}
use jaritanet.Base.Dicts.{lookup}
use jaritanet.Vpn.Singbox.Data.{
  reality, reality_tag, reality_tags, urltest, selector, xhttp, hy2_ports, xhttp_tag, hy2, hy2_tags,
  hy2_tag, ResolvedNode, ResolvedExit, tag_of,
}
use jaritanet.Vpn.Singbox.Outbounds.{
  sing_box, sbr, effective_exits, outbounds, node_leaves, reality_leaves, xhttp_leaves, hy2_leaves,
  entry_groups, single_groups, auto_tags, exit_groups, exit_outbound, exit_tag,
}
use jaritanet.Vpn.Singbox.Profile.{build_profile}
use jaritanet.Vpn.Singbox.Profile.Closed.{IsClosed, build_profile-IsClosed}
use jaritanet.Vpn.Singbox.Profile.Isolation.{visible, build_profile-private}

abbrev alice : VpnUser
alice = record { name = codes "alice"; role = admin }

abbrev bob : VpnUser
bob = record { name = codes "bob"; role = guest }

abbrev node_with : Text → Text → ResolvedNode
node_with name alice_secret = record {
  name = name;
  server = codes "1.2.3.4";
  hysteria = record {
    alt_ports = 8443 ∷ [];
    certificate = codes "pem";
    obfs_password = codes "salt";
    passwords = (codes "alice", alice_secret) ∷ [];
    port = 443;
    sni = codes "bing.com";
  };
  reality = record {
    public_key = codes "pk";
    server_names = codes "www.apple.com" ∷ codes "icloud.com" ∷ [];
    short_id = codes "01";
    uuids = (codes "alice", alice_secret) ∷ (codes "bob", codes "u-bob") ∷ [];
  };
  xhttp = some (record { host = codes "cdn.example"; path = codes "/x" });
}

abbrev oracle : Text → ResolvedNode
oracle = node_with (codes "oracle")

abbrev hetzner : ResolvedNode
hetzner = node_with (codes "hetzner") (codes "s")

abbrev home : ResolvedExit
home = record {
  name = codes "home";
  port = 20001;
  method = codes "aes";
  password = codes "p";
  server = codes "100.64.0.2";
}

tags_run :
    (map tag_of (outbounds bob (oracle (codes "s") ∷ []) (home ∷ []) sing_box)
      ≡ codes "reality-oracle-apple"
        ∷ codes "reality-oracle-icloud"
        ∷ codes "auto"
        ∷ codes "entry-select"
        ∷ [])
    × (map tag_of (outbounds alice (oracle (codes "s") ∷ []) (home ∷ []) sbr)
        ≡ codes "reality-oracle-apple"
          ∷ codes "reality-oracle-icloud"
          ∷ codes "xhttp-oracle"
          ∷ codes "hy2-oracle-443"
          ∷ codes "hy2-oracle-8443"
          ∷ codes "auto"
          ∷ codes "entry-select"
          ∷ codes "exit-home"
          ∷ codes "exit-direct"
          ∷ codes "exit-select"
          ∷ [])
unfolding outbounds flat_map node_leaves reality_leaves reality xhttp_leaves reality_tag hy2_leaves
    entry_groups single_groups auto_tags reality_tags urltest selector exit_groups effective_exits
    xhttp hy2_ports xhttp_tag hy2 hy2_tags hy2_tag exit_outbound exit_tag
tags_run = (refl, refl)

build_profile-IsClosed_example :
    IsClosed
      (build_profile alice (oracle (codes "s") ∷ hetzner ∷ []) (codes "ts.net") (home ∷ []) sbr)
build_profile-IsClosed_example =
    build_profile-IsClosed alice (oracle (codes "s") ∷ hetzner ∷ []) (home ∷ []) sbr
      (codes "ts.net")

-- Bob's profile after Alice's secrets are changed and the exit is withdrawn.
same_nodes :
    map (visible bob) (oracle (codes "s") ∷ []) ≡ map (visible bob) (oracle (codes "t") ∷ [])
unfolding lookup
same_nodes = refl

same_exits : effective_exits bob (home ∷ []) ≡ effective_exits bob []
unfolding effective_exits
same_exits = refl

build_profile-private_example :
    build_profile bob (oracle (codes "s") ∷ []) (codes "ts.net") (home ∷ []) sing_box
    ≡ build_profile bob (oracle (codes "t") ∷ []) (codes "ts.net") [] sing_box
build_profile-private_example =
    build_profile-private bob (oracle (codes "s") ∷ []) (oracle (codes "t") ∷ []) (codes "ts.net")
      (home ∷ []) [] sing_box same_nodes same_exits

-- Two nodes whose tags meet.
tags_meet :
    reality_tag (node_with (codes "a") (codes "s")) (codes "b-c.com")
    ≡ reality_tag (node_with (codes "a-b") (codes "s")) (codes "c.com")
unfolding reality_tag
tags_meet = refl
