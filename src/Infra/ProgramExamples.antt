-- ===== src/Infra/ProgramExamples.antt =====
-- Runs of the whole program, and each theorem on them at a concrete input.
use mathlib.Core.Path.{subst}
use jaritanet.Base.{
  ◌≡◌, refl, sym, ap, ◌∙◌, true, false, none, some, List, [], ◌∷◌, map, Text, codes, In, here,
  text_eq, is_truthy, any, find?, split, join, trim, is_space, filter,
}
use jaritanet.Base.Decimal.{decimal}
use jaritanet.Base.Dicts.{lookup}
use jaritanet.Base.Sets.{dedup, has, has-false}
use jaritanet.Dns.{Zone, create_service_record}
use jaritanet.Vpn.Users.{
  VpnUser, admin, guest, users, parse_vpn_users, parse_from, parse_token, is_name,
}
use jaritanet.Vpn.Singbox.Data.{Xhttp, ResolvedNode}
use jaritanet.Vpn.Hysteria.{HysteriaKeys}
use jaritanet.Infra.{Result, returned, thrown}
use jaritanet.Infra.Publish.{zone_for, zone_name, last_two}
use jaritanet.Infra.Exits.{resolve_exit, exit_bind, check_exits, lacks_key, resolved_exits}
use jaritanet.Infra.Entries.{roster, singbox_nodes, hysteria_of, reality_of, XrayKeys}
use jaritanet.Infra.Cdn.{values, fronted, create_cdn_entry}
use jaritanet.Infra.Services.{hostname_of, add, registration, register, site, routes_at}
use jaritanet.Infra.Services.Each.{
  in_turn, add_koan, add_koan_demo, add_push_relay, add_site, add_tubele, add_mcp_gateway,
  add_mariastew, add_transmet, add_slsk, add_metrics, add_profiles, create_services,
}
use jaritanet.Base.Options.{some_injective}
use jaritanet.Infra.Program.{Stack, Machines, Program, finish, program}
use jaritanet.Infra.Program.Runs.{HasRoster, IsOwn, program-returns}
use jaritanet.Infra.Program.Entry.{program-xhttp}
use jaritanet.Infra.ServicesExamples.{packages, generated, lady}
use jaritanet.Infra.Firewall.Open.{IsReached, program-IsReached}
use jaritanet.Vpn.Singbox.Outbounds.{sing_box}

abbrev alice : VpnUser
alice = record { name = codes "alice"; role = admin }

abbrev bob : VpnUser
bob = record { name = codes "bob"; role = guest }

abbrev raw_roster : Text
raw_roster = codes "alice+,bob"

abbrev stack : Stack
stack = record {
  vpn_users = some raw_roster;
  exits = lady ∷ [];
  auth_key = some (codes "key");
  edges = [];
  zones =
      record { modules = codes "bluesky" ∷ []; name = codes "blit.cc"; zone_id = codes "z1" } ∷ [];
  fastmail = record {
    dkim_domain = [];
    dkim_subdomain = [];
    dmarc_agg_email = [];
    dmarc_policy = [];
    dmarc_subdomain = [];
    mx_domain = [];
    spf_domain = [];
  };
  bluesky = codes "did:plc:x";
  xray = some (record { server_names = codes "blit.cc" ∷ []; xhttp = some (codes "cdn.blit.cc") });
  hysteria = some (record { alt_ports = []; port = 443; sni = codes "blit.cc" });
  hostnames = (codes "blit", codes "blit.cc") ∷ [];
  magicdns_suffix = none;
  koan_apns_key = none;
  transmet = none;
  github = true;
}

abbrev xray_keys : XrayKeys
xray_keys = record {
  public_key = codes "pk";
  short_id = codes "ab";
  uuids = [];
  xhttp_path = some (codes "/secret");
}

abbrev hysteria_keys : HysteriaKeys
hysteria_keys = record { certificate = codes "cert"; obfs_password = codes "obfs"; passwords = [] }

abbrev machines : Machines
machines = record {
  vps_ip = codes "192.0.2.1";
  namespace = codes "jaritanet";
  traefik = codes "traefik";
  generated = generated;
  edge =
      λ conf us. record { vps_ip = codes "192.0.2.2"; hysteria = hysteria_keys; xray = xray_keys };
  xray = λ conf us. xray_keys;
  hysteria = λ conf us. hysteria_keys;
}

abbrev cdn_zone : Zone
cdn_zone = record { modules = codes "bluesky" ∷ []; name = codes "blit.cc"; zone_id = codes "z1" }

cdn-IsOwn : IsOwn stack (codes "cdn.blit.cc")
unfolding has any text_eq zone_for zone_name last_two find? split join
cdn-IsOwn = (has-false (codes "cdn.blit.cc") (values stack.hostnames) refl, (cdn_zone, refl))

hostname-IsOwn : (h : Text) → some (codes "cdn.blit.cc") ≡ some h → IsOwn stack h
hostname-IsOwn h e = subst (IsOwn stack) (some_injective _ _ e) cdn-IsOwn

has_roster : HasRoster stack
unfolding parse_vpn_users parse_from parse_token is_name any text_eq trim split is_truthy is_space
has_roster raw e =
    subst (λ t. (us : List VpnUser) × (parse_vpn_users t ≡ users us)) (some_injective _ _ e)
      (alice ∷ bob ∷ [], refl)

keyed : lacks_key (map resolve_exit stack.exits) stack.auth_key ≡ false
unfolding is_truthy
keyed = refl

program-returns_example : (p : Program) × (program packages stack machines ≡ returned p)
program-returns_example =
    program-returns packages stack machines has_roster (tt, tt) keyed hostname-IsOwn (λ h. refl)
      (λ h s. refl)

abbrev value_or : Result Program → Program → Program
value_or (returned p) q = p
value_or (thrown e) q = q

abbrev nothing : Program
nothing = record {
  users = [];
  exits = [];
  nodes = [];
  records = [];
  ingress_routes = [];
  clients = [];
  published = [];
}

abbrev made : Program
made = value_or (program packages stack machines) nothing

made_run : program packages stack machines ≡ returned made
made_run =
    let (p, e) = program-returns_example in e ∙ sym (ap (λ r. returned (value_or r nothing)) e)

abbrev entry : Xhttp
entry = record { host = codes "cdn.blit.cc"; path = codes "/secret" }

abbrev primary : ResolvedNode
primary = record {
  name = codes "primary";
  server = codes "192.0.2.1";
  hysteria = record {
    alt_ports = [];
    certificate = codes "cert";
    obfs_password = codes "obfs";
    passwords = [];
    port = 443;
    sni = codes "blit.cc";
  };
  reality = record {
    public_key = codes "pk";
    server_names = codes "blit.cc" ∷ [];
    short_id = codes "ab";
    uuids = [];
  };
  xhttp = some entry;
}

primary-In : In primary made.nodes
unfolding program roster is_truthy parse_vpn_users parse_from parse_token is_name any text_eq trim
    split is_space resolved_exits check_exits resolve_exit exit_bind dedup filter decimal
    create_cdn_entry has zone_for zone_name last_two find? join fronted create_services in_turn
    add_koan add_koan_demo add_push_relay add_site add_tubele add_mcp_gateway add_mariastew
    add_transmet add_slsk add_metrics add_profiles hostname_of lookup add registration register site
    routes_at finish singbox_nodes hysteria_of reality_of
primary-In = here

program-xhttp_example :
    (¬ In (codes "cdn.blit.cc") (values stack.hostnames))
    × ((zone : Zone) × (zone_for stack.zones (codes "cdn.blit.cc") ≡ some zone)
        × In
            (create_service_record (codes "192.0.2.1") zone (codes "cdn.blit.cc") true)
            made.records)
program-xhttp_example =
    program-xhttp packages stack machines made made_run primary entry primary-In refl

program-IsReached_example : IsReached packages stack machines none made.users alice sing_box primary
program-IsReached_example =
    program-IsReached packages stack machines none made made_run alice sing_box primary primary-In
