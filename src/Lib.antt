-- ===== src/Lib.antt =====
-- Verification library of the jaritanet repository: the TypeScript code that decides something
-- before Pulumi or a shell carries it out.
--
-- The version updater, scripts/update-apps, is Updates. Its pure half, versions.ts, has a module
-- for each group of functions: Updates.Number is the conversion Number(s) that the comparison
-- rests on, Updates.Compare is normaliseVersion and compareVersions, Updates.Pick is pickLatestTag,
-- Updates.Template is applyTemplate, Updates.ImageRef is parseImageRef, chartServes and verifyRef,
-- Updates.Decide is decide, and Updates.Pins is readConst, writeConst, readDependency and
-- writeDependency. Updates.Run is update-apps.ts, the run around them: Updates.Run has the lookups
-- (headSha, latestTag, imageExists, chartListed) and the cached files (source), Updates.Run.Step
-- the body of the loop over the tracked entries, and Updates.Run.Finish pushing, recording and the
-- run as a whole. Its state is the files on disk, the files in memory, the three lists of the
-- report and the history of commands; the commands git, gh and aube and the registries are the
-- parameter World. An exception that the script does not catch ends the run and is none.
--
-- The VPN package, packages/vpn/src, is Vpn: Vpn.Users is users.ts, and Vpn.Singbox is
-- singbox.ts, with the inputs and kinds of outbounds in Vpn.Singbox.Data, the outbounds of a
-- profile in Vpn.Singbox.Outbounds and the document in Vpn.Singbox.Profile. buildProfile takes its
-- users from parseVpnUsers, and its nodes and exits from the deployed transports.
--
-- Vpn.Roster describes the rosters that parse. Vpn.Xray is the server's side, the configuration
-- that xray.ts writes: its clients are the users of the roster, by the ids that a profile presents.
-- Vpn.Xray.Routing is what Xray, as documented, does with a connection by that configuration.
-- Vpn.Hysteria is hysteria.ts, the other server: its users are the admins, by the passwords of
-- their profiles. Vpn.Delivery is the table that profiles.ts serves, with the digest as an argument.
-- Vpn.ExitPort is deriveExitPort of exit.ts, and Vpn.Claim is planClaim of
-- packages/vpn/scripts/claim-tailnet-name.ts.
--
-- Services is createService of packages/k8s/src/service.ts: the arguments and the kinds of objects
-- in Services, the objects that are made in Services.Create.
--
-- Home.Samba is the file server of packages/home/src/samba.ts, with what a share of it comes to in
-- Home.Samba.Exported.
--
-- Infra is the program of the infrastructure, packages/infra/src. Infra.Program is main.ts as a
-- whole: the roster and the nodes of the profiles are Infra.Entries, the exits and their ports
-- Infra.Exits (with createExit of packages/vpn/src/exit.ts), the entry behind a CDN Infra.Cdn, and
-- the provider's routes Infra.Auth. An exception of the program is a thrown Failure. Of
-- services.ts, Infra.Services is createServices, with a step for each service in
-- Infra.Services.Each, and Infra.Publish is publishRoutes. The published routes become the objects
-- of Ingress, which is packages/ingress/src/ingress.ts, and their records those of Dns. The
-- firewall rules of gateway.ts and edge.ts, made by inboundRule of packages/hetzner/src/vps.ts, are
-- Infra.Firewall. Infra.TailnetPolicy is tailnet-policy.ts. The packages of other repositories and
-- the machines are parameters, by what they hand back (Infra.Services.Packages,
-- Infra.Program.Machines).
--
-- Dns is packages/dns/src/dns.ts, and Cluster is packages/hetzner/src/compat.ts.
--
-- Base has what the parts share: Boolean tests, lists over native numbers, JavaScript strings as
-- lists of UTF-16 code units, decimal numerals, dictionaries, sets and sorting. Numbers that the
-- code keeps in doubles are natural numbers where they are small, and Updates.Number rounds as a
-- double does.
--
-- Fuel: a decimal numeral is printed with as much fuel as its value and one, which is enough since
-- each digit divides by ten. pushWithRebase counts its three attempts down. All other recursion is
-- structural.
--
-- Not modelled: the declarations of cloud and cluster resources other than those of the services,
-- the routes, the exits, the Hysteria server and the file server, shell scripts, dashboards, schemas
-- that only name types, cryptography, network and terminal output, and the programs in Rust.
pub mod Base
pub mod Cluster
pub mod Dns
pub mod Home
pub mod Infra
pub mod Ingress
pub mod Services
pub mod Updates
pub mod Vpn
