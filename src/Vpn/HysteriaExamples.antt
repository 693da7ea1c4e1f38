-- ===== src/Vpn/HysteriaExamples.antt =====
-- A run of the hysteria server, and the theorem on it at a concrete input.
use jaritanet.Base.{
  ℕ, ◌≡◌, refl, true, false, List, none, [], ◌∷◌, ◌++◌, map, Text, codes, text_eq, any, filter, In,
  here, join,
}
use jaritanet.Base.Decimal.{decimal}
use jaritanet.Base.Dicts.{lookup, put}
use jaritanet.Base.Sets.{Unique, has, has-false}
use jaritanet.Vpn.Users.{VpnUser, admin, guest}
use jaritanet.Vpn.Singbox.Data.{ResolvedNode}
use jaritanet.Vpn.Singbox.Outbounds.{sing_box, is_admin, hy2_password}
use jaritanet.Vpn.Hysteria.{
  HysteriaConf, Generated, admins, passwords_from, passwords, credentials, userpass_block, config,
  create_hysteria,
}
use jaritanet.Vpn.Hysteria.Passwords.{Serves, create_hysteria-admins}

abbrev alice : VpnUser
alice = record { name = codes "alice"; role = admin }

abbrev bob : VpnUser
bob = record { name = codes "bob"; role = guest }

abbrev roster : List VpnUser
roster = alice ∷ bob ∷ []

abbrev made : Generated
made = record {
  password = λ resource. codes "pw-" ++ resource;
  certificate = codes "cert";
  key = codes "key";
}

abbrev conf : HysteriaConf
conf = record { alt_ports = 3478 ∷ []; port = 443; sni = codes "www.bing.com" }

config_run :
    config made roster 443
    ≡ codes
        "listen: :443\ntls:\n  cert: /etc/hysteria/cert.pem\n  key: /etc/hysteria/key.pem\nobfs:\n  type: salamander\n  salamander:\n    password: pw-hysteria-obfs\nauth:\n  type: userpass\n  userpass:\n    alice: pw-hysteria-auth-alice\n"
unfolding config userpass_block credentials passwords passwords_from admins filter lookup put
    text_eq join decimal
config_run = refl

abbrev node : ResolvedNode
node = record {
  name = codes "primary";
  server = codes "192.0.2.1";
  hysteria = record {
    alt_ports = 3478 ∷ [];
    certificate = codes "cert";
    obfs_password = codes "pw-hysteria-obfs";
    passwords = (codes "alice", codes "pw-hysteria-auth-alice") ∷ [];
    port = 443;
    sni = codes "www.bing.com";
  };
  reality = record { public_key = []; server_names = []; short_id = []; uuids = [] };
  xhttp = none;
}

apart_names : Unique (map (λ (u : VpnUser). u.name) roster)
unfolding has any text_eq
apart_names =
    (has-false (codes "alice") (codes "bob" ∷ []) refl, (has-false (codes "bob") [] refl, tt))

node_keys :
    node.hysteria.passwords ≡ (create_hysteria made conf roster (codes "entry")).keys.passwords
unfolding create_hysteria passwords passwords_from admins filter put text_eq
node_keys = refl

create_hysteria-admins_example :
    (accepted : List (Text × Text)) × ((port : ℕ)
      → In port (443 ∷ 3478 ∷ [])
      → Serves (create_hysteria made conf roster (codes "entry")) port accepted)
    × (is_admin alice ≡ true
        → (password : Text) × In (codes "alice", password) accepted
          × (hy2_password alice sing_box node ≡ codes "alice" ++ (codes ":" ++ password)))
    × (is_admin alice ≡ false → (password : Text) → ¬ In (codes "alice", password) accepted)
create_hysteria-admins_example =
    create_hysteria-admins made conf roster (codes "entry") alice sing_box node here apart_names
      node_keys
