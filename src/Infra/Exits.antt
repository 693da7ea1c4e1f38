-- ===== src/Infra/Exits.antt =====
-- The exits of packages/infra/src/main.ts: their ports and what they need; and `createExit` of
-- packages/vpn/src/exit.ts, which makes them.
pub mod Binds
use jaritanet.Base.{
  ℕ, Bool, true, false, not, ◌&&◌, Option, none, some, List, [], ◌∷◌, ◌++◌, map, ◌==◌,
  if◌then◌else◌, Text, codes, length, is_truthy,
}
use jaritanet.Base.Decimal.{decimal}
use jaritanet.Base.Sets.{dedup}
use jaritanet.Vpn.ExitPort.{derive_exit_port}
use jaritanet.Vpn.Singbox.Data.{ResolvedExit}
use jaritanet.Infra.{Failure, shared_bind, no_auth_key, Result, returned, thrown}

-- An exit of the configuration.
pub record ExitConf : Type 0 where
  pub method : Text
  pub name : Text
  pub node : Text
  pub node_label : Text
  pub port : Option ℕ
  pub server : Text

-- `ResolvedExit` of exit.ts: an exit with its port.
pub record BoundExit : Type 0 where
  pub method : Text
  pub name : Text
  pub node : Text
  pub node_label : Text
  pub port : ℕ
  pub server : Text

-- `e.port ?? deriveExitPort(e.name)`
unfoldable pub resolve_exit : ExitConf → BoundExit
unfolding derive_exit_port
resolve_exit e = record {
  method = e.method;
  name = e.name;
  node = e.node;
  node_label = e.node_label;
  port = elim e.port [ none ↦ derive_exit_port e.name | some port ↦ port ];
  server = e.server;
}

-- `${e.node}:${e.port}`
unfoldable pub exit_bind : BoundExit → Text
unfolding decimal
exit_bind e = e.node ++ (codes ":" ++ decimal e.port)

abbrev pub has_key : Option Text → Bool
has_key none = false
has_key (some key) = is_truthy key

-- `resolvedExits.length && !tailnet.authKey`
abbrev pub lacks_key : List BoundExit → Option Text → Bool
lacks_key [] key = false
lacks_key (_ ∷ _) key = not (has_key key)

-- The exits, or the exception for them.
unfoldable pub check_exits : List BoundExit → Option Text → Result (List BoundExit)
unfolding exit_bind dedup is_truthy
check_exits exits key =
    let binds = map exit_bind exits in
    if not (length (dedup binds) == length binds)
    then thrown shared_bind
    else if lacks_key exits key
    then thrown no_auth_key
    else returned exits

unfoldable pub resolved_exits : List ExitConf → Option Text → Result (List BoundExit)
unfolding resolve_exit check_exits
resolved_exits exits key = check_exits (map resolve_exit exits) key

-- The label that puts an exit on its node.
pub record NodePatch : Type 0 where
  pub resource : Text
  pub node : Text
  pub label : Text × Text
  pub patch_force : Bool

-- What the server is configured with.
pub record ExitServer : Type 0 where
  pub server : Text
  pub server_port : ℕ
  pub method : Text
  pub password : Text
  pub mode : Text

-- The DaemonSet of an exit, as far as it is about one.
pub record ExitDaemonSet : Type 0 where
  pub name : Text
  pub config : ExitServer
  pub host_network : Bool
  pub dns_policy : Text
  pub automount_service_account_token : Bool
  pub node_selector : Text × Text
  pub depends_on : List Text

unfoldable pub exit_name : BoundExit → Text
exit_name e = codes "exit-" ++ e.name

unfoldable pub exit_server : BoundExit → Text → ExitServer
exit_server e password = record {
  server = codes "0.0.0.0";
  server_port = e.port;
  method = e.method;
  password = password;
  mode = codes "tcp_and_udp";
}

-- `createExit`, with the password that is generated under the exit's name.
unfoldable pub create_exit : (Text → Text) → BoundExit → NodePatch × ExitDaemonSet × ResolvedExit
unfolding exit_name exit_server
create_exit generated e =
    let password = generated (exit_name e ++ codes "-ss") in
    (
      record {
        resource = exit_name e ++ codes "-node";
        node = e.node;
        label = (e.node_label, codes "true");
        patch_force = true;
      },
      record {
        name = exit_name e;
        config = exit_server e password;
        host_network = true;
        dns_policy = codes "Default";
        automount_service_account_token = false;
        node_selector = (e.node_label, codes "true");
        depends_on = (exit_name e ++ codes "-node") ∷ (exit_name e ++ codes "-config") ∷ [];
      },
      record {
        name = e.name;
        port = e.port;
        method = e.method;
        password = password;
        server = e.server;
      },
    )
