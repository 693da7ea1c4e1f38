-- ===== src/Vpn/DeliveryExamples.antt =====
-- Each theorem on the table of profiles at a concrete input.
use jaritanet.Base.{
  ◌≡◌, refl, true, some, List, [], ◌∷◌, codes, any, flat_map, In, here, there, All,
}
use jaritanet.Vpn.Users.{VpnUser, admin, guest, is_name, all_units}
use jaritanet.Vpn.Singbox.Data.{ResolvedNode}
use jaritanet.Vpn.Delivery.{entry_of, sbr_variant, variants, entries}
use jaritanet.Vpn.Delivery.Keys.{entries-keys}

abbrev alice : VpnUser
alice = record { name = codes "alice"; role = admin }

abbrev bob : VpnUser
bob = record { name = codes "bob"; role = guest }

abbrev both : List VpnUser
both = alice ∷ bob ∷ []

abbrev fronted : ResolvedNode
fronted = record {
  name = codes "oracle";
  server = codes "1.2.3.4";
  hysteria = record {
    alt_ports = [];
    certificate = codes "pem";
    obfs_password = codes "salt";
    passwords = [];
    port = 443;
    sni = codes "bing.com";
  };
  reality = record { public_key = codes "p"; server_names = []; short_id = codes "01"; uuids = [] };
  xhttp = some (record { host = codes "cdn.example"; path = codes "/x" });
}

valid_names : All (λ (u : VpnUser). is_name u.name ≡ true) both
unfolding is_name all_units
valid_names = (refl, (refl, tt))

bob_sbr : In (entry_of bob sbr_variant) (entries both (fronted ∷ []))
unfolding entries variants any flat_map
bob_sbr = there (there (there here))

entries-keys_example : (bob.name ≡ bob.name) × (sbr_variant.client ≡ sbr_variant.client)
entries-keys_example =
    entries-keys both (fronted ∷ []) (entry_of bob sbr_variant) (entry_of bob sbr_variant)
      valid_names bob_sbr bob_sbr refl
