-- ===== src/Vpn/Hysteria.antt =====
-- `createHysteria` of packages/vpn/src/hysteria.ts: the credentials, the files of the server and its
-- containers. What Pulumi generates is an argument, by the name of the resource.
pub mod Passwords
use jaritanet.Base.{
  ℕ, Bool, true, false, Option, none, some, List, [], ◌∷◌, ◌++◌, map, ltb, if◌then◌else◌, Text,
  codes, filter, join,
}
use jaritanet.Base.Decimal.{decimal}
use jaritanet.Base.Dicts.{Dict, lookup, put}
use jaritanet.Vpn.Users.{VpnUser}
use jaritanet.Vpn.Singbox.Outbounds.{is_admin}

pub record HysteriaConf : Type 0 where
  pub alt_ports : List ℕ
  pub port : ℕ
  pub sni : Text

-- What is returned for the profiles.
pub record HysteriaKeys : Type 0 where
  pub certificate : Text
  pub obfs_password : Text
  pub passwords : Dict

-- What Pulumi generates: the passwords by their resources, the certificate and its key.
pub record Generated : Type 0 where
  pub password : Text → Text
  pub certificate : Text
  pub key : Text

unfoldable pub admins : List VpnUser → List VpnUser
unfolding filter
admins users = filter is_admin users

abbrev pub mint : Generated → Text → Text
mint g name = g.password (codes "hysteria-auth-" ++ name)

-- `passwords`, filled by the loop over the admins.
unfoldable pub passwords_from : Generated → Dict → List VpnUser → Dict
unfolding put
passwords_from g found [] = found
passwords_from g found (a ∷ more) = passwords_from g (put a.name (mint g a.name) found) more

unfoldable pub passwords : Generated → List VpnUser → Dict
unfolding passwords_from admins
passwords g users = passwords_from g [] (admins users)

abbrev pub text_or_undefined : Option Text → Text
text_or_undefined none = codes "undefined"
text_or_undefined (some s) = s

-- The names and passwords that the server is configured with.
unfoldable pub credentials : Generated → List VpnUser → List (Text × Text)
unfolding passwords admins lookup
credentials g users =
    map (λ (a : VpnUser). (a.name, text_or_undefined (lookup a.name (passwords g users))))
      (admins users)

abbrev credential_line : Text × Text → Text
credential_line (name, password) = codes "    " ++ (name ++ (codes ": " ++ password))

unfoldable pub userpass_block : Generated → List VpnUser → Text
unfolding credentials join
userpass_block g users = join (codes "\n") (map credential_line (credentials g users))

abbrev config_file : ℕ → Text
config_file port = codes "config-" ++ (decimal port ++ codes ".yaml")

unfoldable pub config : Generated → List VpnUser → ℕ → Text
unfolding userpass_block decimal
config g users port =
    codes "listen: :"
    ++ (decimal port
        ++ (codes "\ntls:\n  cert: /etc/hysteria/cert.pem\n  key: /etc/hysteria/key.pem\n"
            ++ (codes "obfs:\n  type: salamander\n  salamander:\n    password: "
                ++ (g.password (codes "hysteria-obfs")
                    ++ (codes "\nauth:\n  type: userpass\n  userpass:\n"
                        ++ (userpass_block g users ++ codes "\n"))))))

-- The container of a port.
pub record HysteriaContainer : Type 0 where
  pub name : Text
  pub args : List Text
  pub cpu_request : Text
  pub memory_request : Text
  pub memory_limit : Text
  pub allow_privilege_escalation : Bool
  pub seccomp_profile : Text
  pub drop : List Text
  pub added : List Text

unfoldable pub hysteria_container : ℕ → HysteriaContainer
unfolding decimal
hysteria_container port = record {
  name = codes "hysteria-" ++ decimal port;
  args = codes "server" ∷ codes "-c" ∷ (codes "/etc/hysteria/" ++ config_file port) ∷ [];
  cpu_request = if ltb port 1024 then codes "750m" else codes "100m";
  memory_request = codes "32Mi";
  memory_limit = codes "1Gi";
  allow_privilege_escalation = false;
  seccomp_profile = codes "RuntimeDefault";
  drop = codes "ALL" ∷ [];
  added = if ltb port 1024 then codes "NET_BIND_SERVICE" ∷ [] else [];
}

pub record HysteriaObjects : Type 0 where
  pub files : List (Text × Text)
  pub containers : List HysteriaContainer
  pub host_network : Bool
  pub node_selector : Text × Text
  pub keys : HysteriaKeys

-- Of two files for the same port, which are the same, `Object.fromEntries` keeps one.
unfoldable pub create_hysteria : Generated → HysteriaConf → List VpnUser → Text → HysteriaObjects
unfolding config hysteria_container passwords
create_hysteria g conf users entry_label =
    let ports = conf.port ∷ conf.alt_ports in
    record {
      files =
          map (λ port. (config_file port, config g users port)) ports
          ++ (codes "cert.pem", g.certificate) ∷ (codes "key.pem", g.key) ∷ [];
      containers = map hysteria_container ports;
      host_network = true;
      node_selector = (entry_label, codes "true");
      keys = record {
        certificate = g.certificate;
        obfs_password = g.password (codes "hysteria-obfs");
        passwords = passwords g users;
      };
    }
