-- ===== src/Vpn/ServerExamples.antt =====
-- Runs of the roster, the server and the scripts of the VPN, and each theorem on them at a
-- concrete input.
use jaritanet.Base.{
  ◌+◌, ◌%◌, ◌^◌, ◌≤◌, Bool, not, ◌||◌, ◌≡◌, ◌⊎◌, refl, ◌&&◌, true, false, none, some, List, [], ◌∷◌,
  ◌++◌, Text, codes, text_eq, any, In, here, there, All, trim, split, is_truthy, is_space,
}
use jaritanet.Vpn.Users.{
  users, invalid_name, duplicate_name, VpnUser, admin, guest, is_name, parse_token, parse_from,
  parse_vpn_users,
}
use jaritanet.Vpn.Roster.{entries, IsAccepted, IsRefused, names, parse_vpn_users-cases}
use jaritanet.Vpn.ExitPort.{derive_exit_port, djb2, first_units, derive_exit_port-djb2}
use jaritanet.Vpn.Claim.{Device}
use jaritanet.Vpn.Singbox.Data.{ResolvedNode}
use jaritanet.Vpn.Singbox.Outbounds.{sbr, uuid_of}
use jaritanet.Vpn.Xray.{XrayConf, Keypair, is_guest, uuids, xray_config}
use jaritanet.Vpn.Xray.Routing.{Connection, tcp, goes_out, is_opened, not_internet}
use jaritanet.Vpn.Xray.Guests.{IsKnown, xray_config-guests}
use jaritanet.Vpn.Xray.Clients.{Accepts, xray_config-clients}

abbrev alice : VpnUser
alice = record { name = codes "alice"; role = admin }

abbrev bob : VpnUser
bob = record { name = codes "bob"; role = guest }

roster_runs :
    (parse_vpn_users (codes " alice+, ,bob") ≡ users (alice ∷ bob ∷ []))
    × (parse_vpn_users (codes "bob,1x,bob") ≡ invalid_name (codes "1x"))
    × (parse_vpn_users (codes "bob,bob +") ≡ duplicate_name (codes "bob"))
unfolding parse_vpn_users parse_from parse_token is_name any text_eq trim split is_truthy is_space
roster_runs = (refl, refl, refl)

abbrev raw : Text
raw = codes " alice+, ,bob"

parse_vpn_users-cases_example :
    ((parse_vpn_users raw ≡ users (entries raw)) × IsAccepted [] (entries raw))
    ⊎ (((u : VpnUser) × IsRefused [] (entries raw) u
          × (is_name u.name ≡ false)
          × (parse_vpn_users raw ≡ invalid_name u.name))
        ⊎ ((u : VpnUser) × (h : IsRefused [] (entries raw) u) × (is_name u.name ≡ true)
            × In u.name (names h.before)
            × (parse_vpn_users raw ≡ duplicate_name u.name)))
parse_vpn_users-cases_example = parse_vpn_users-cases raw

abbrev fresh : Device
fresh = record {
  node_id = codes "n2";
  hostname = codes "gw";
  name = codes "gw-1.ts.net";
  tags = some (codes "tag:gw" ∷ []);
}

abbrev stale : Device
stale = record fresh { node_id = codes "n1"; name = codes "gw.ts.net" }

abbrev conf : XrayConf
conf = record {
  dest = codes "127.0.0.1:8443";
  server_names = codes "www.apple.com" ∷ [];
  xhttp = some (record { port = 10443 });
}

abbrev keys : Keypair
keys = record { private_key = codes "k"; public_key = codes "p" }

abbrev mint : Text → Text
mint name = codes "id-" ++ name

abbrev known : List VpnUser
known = alice ∷ bob ∷ []

bob-IsKnown : IsKnown bob known
bob-IsKnown = (there here, λ v m. same v m)
  where
    same : (v : VpnUser) → In v known → v.name ≡ codes "bob" → v.role ≡ guest
    same v here e = cc e
    same v (there here) e = refl
    same v (there (there m)) e = elim m [ ]

derive_exit_port-djb2_example :
    (derive_exit_port (codes "home")
      ≡ 20000 + djb2 5381 (first_units (codes "home")) % 2 ^ 32 % 10000)
    × (20000 ≤ derive_exit_port (codes "home"))
    × (derive_exit_port (codes "home") ≤ 29999)
derive_exit_port-djb2_example = derive_exit_port-djb2 (codes "home")

abbrev router : Connection Text
router = record { address = codes "10.0.0.0/8"; network = tcp; port = 80 }

abbrev is_range : Text → Text → Bool
is_range address range = text_eq address range

xray_config-guests_example :
    goes_out is_range
      (λ address. true)
      (codes "bob")
      router
      (xray_config conf keys (codes "01") (codes "/x") mint known)
    ≡ (not (is_guest bob && any (is_range (codes "10.0.0.0/8")) not_internet)
        && (is_opened is_range router || not true))
xray_config-guests_example =
    xray_config-guests is_range (λ address. true) conf keys (codes "01") (codes "/x") mint known bob
      router bob-IsKnown

abbrev node : ResolvedNode
node = record {
  name = codes "oracle";
  server = codes "1.2.3.4";
  hysteria = record {
    alt_ports = [];
    certificate = codes "pem";
    obfs_password = codes "salt";
    passwords = [];
    port = 443;
    sni = codes "bing.com";
  };
  reality = record {
    public_key = codes "p";
    server_names = codes "www.apple.com" ∷ [];
    short_id = codes "01";
    uuids = uuids mint known;
  };
  xhttp = none;
}

xray_config-clients_example :
    (uuid_of bob sbr node ≡ some (codes "id-bob"))
    × All
        (Accepts (codes "bob") (uuid_of bob sbr node))
        (xray_config conf keys (codes "01") (codes "/x") mint known).inbounds
xray_config-clients_example =
    xray_config-clients conf keys (codes "01") (codes "/x") mint known bob sbr node (there here)
      refl
