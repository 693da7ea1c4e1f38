-- ===== src/Vpn/Singbox/Data.antt =====
-- The inputs and the parts of a profile of packages/vpn/src/singbox.ts, and one function for each
-- kind of outbound.
use jaritanet.Base.{
  ℕ, Option, none, some, List, ◌∷◌, ◌++◌, map, ◌==◌, Text, codes, strip_prefix, split_first,
}
use jaritanet.Base.Decimal.{decimal}
use jaritanet.Base.Dicts.{Dict}

pub record Hysteria : Type 0 where
  pub alt_ports : List ℕ
  pub certificate : Text
  pub obfs_password : Text
  pub passwords : Dict
  pub port : ℕ
  pub sni : Text

pub record Reality : Type 0 where
  pub public_key : Text
  pub server_names : List Text
  pub short_id : Text
  pub uuids : Dict

pub record Xhttp : Type 0 where
  pub host : Text
  pub path : Text

pub record ResolvedNode : Type 0 where
  pub name : Text
  pub server : Text
  pub hysteria : Hysteria
  pub reality : Reality
  pub xhttp : Option Xhttp

pub record ResolvedExit : Type 0 where
  pub name : Text
  pub port : ℕ
  pub method : Text
  pub password : Text
  pub server : Text

pub record Hysteria2Outbound : Type 0 where
  pub tag : Text
  pub server : Text
  pub server_port : ℕ
  pub password : Text
  pub obfs_password : Text
  pub server_name : Text
  pub certificate : Text

pub record RealityOutbound : Type 0 where
  pub tag : Text
  pub server : Text
  pub server_port : ℕ
  pub uuid : Option Text
  pub flow : Text
  pub server_name : Text
  pub fingerprint : Text
  pub public_key : Text
  pub short_id : Text

pub record XhttpOutbound : Type 0 where
  pub tag : Text
  pub server : Text
  pub server_port : ℕ
  pub uuid : Option Text
  pub domain_resolver : Text
  pub server_name : Text
  pub path : Text
  pub mode : Text
  pub host : Text

pub record UrltestGroup : Type 0 where
  pub tag : Text
  pub outbounds : List Text
  pub url : Text
  pub interval : Text
  pub idle_timeout : Text
  pub tolerance : ℕ

pub record SelectorGroup : Type 0 where
  pub tag : Text
  pub outbounds : List Text
  pub default : Option Text

pub record ShadowsocksOutbound : Type 0 where
  pub tag : Text
  pub server : Text
  pub server_port : ℕ
  pub method : Text
  pub password : Text
  pub detour : Text

pub data Outbound : Type 0 where
  hysteria2 : Hysteria2Outbound → Outbound
  vless : RealityOutbound → Outbound
  vless_xhttp : XhttpOutbound → Outbound
  urltest_group : UrltestGroup → Outbound
  selector_group : SelectorGroup → Outbound
  shadowsocks : ShadowsocksOutbound → Outbound

abbrev pub tag_of : Outbound → Text
tag_of (hysteria2 o) = o.tag
tag_of (vless o) = o.tag
tag_of (vless_xhttp o) = o.tag
tag_of (urltest_group o) = o.tag
tag_of (selector_group o) = o.tag
tag_of (shadowsocks o) = o.tag

unfoldable pub hy2_tag : ResolvedNode → ℕ → Text
unfolding decimal
hy2_tag n port = codes "hy2-" ++ (n.name ++ (codes "-" ++ decimal port))

unfoldable pub hy2 : ResolvedNode → Text → ℕ → Outbound
hy2 n password port = hysteria2 (record {
  tag = hy2_tag n port;
  server = n.server;
  server_port = port;
  password = password;
  obfs_password = n.hysteria.obfs_password;
  server_name = n.hysteria.sni;
  certificate = n.hysteria.certificate;
})

unfoldable pub hy2_ports : ResolvedNode → List ℕ
hy2_ports n = n.hysteria.port ∷ n.hysteria.alt_ports

unfoldable pub hy2_tags : ResolvedNode → List Text
unfolding hy2_ports
hy2_tags n = map (hy2_tag n) (hy2_ports n)

-- `sniLabel` of packages/vpn/src/reality.ts: `sni.replace(/^www\./, "").split(".")[0]`
unfoldable pub sni_label : Text → Text
unfolding strip_prefix split_first
sni_label sni =
    let bare : Text = elim (strip_prefix (codes "www.") sni) [ none ↦ sni | some rest ↦ rest ] in
    (split_first (λ c. c == b'.') bare).0

unfoldable pub reality_tag : ResolvedNode → Text → Text
unfolding sni_label
reality_tag n sni = codes "reality-" ++ (n.name ++ (codes "-" ++ sni_label sni))

unfoldable pub reality_tags : ResolvedNode → List Text
reality_tags n = map (reality_tag n) n.reality.server_names

unfoldable pub reality : ResolvedNode → Option Text → Text → Outbound
reality n uuid sni = vless (record {
  tag = reality_tag n sni;
  server = n.server;
  server_port = 443;
  uuid = uuid;
  flow = codes "xtls-rprx-vision";
  server_name = sni;
  fingerprint = codes "chrome";
  public_key = n.reality.public_key;
  short_id = n.reality.short_id;
})

unfoldable pub xhttp_tag : ResolvedNode → Text
xhttp_tag n = codes "xhttp-" ++ n.name

unfoldable pub xhttp : Xhttp → ResolvedNode → Option Text → Outbound
xhttp cdn n uuid = vless_xhttp (record {
  tag = xhttp_tag n;
  server = cdn.host;
  server_port = 443;
  uuid = uuid;
  domain_resolver = codes "local";
  server_name = cdn.host;
  path = cdn.path;
  mode = codes "packet-up";
  host = cdn.host;
})

unfoldable pub urltest : Text → List Text → Outbound
urltest tag outbounds = urltest_group (record {
  tag = tag;
  outbounds = outbounds;
  url = codes "https://www.gstatic.com/generate_204";
  interval = codes "10m";
  idle_timeout = codes "30m";
  tolerance = 100;
})

unfoldable pub selector : Text → List Text → Option Text → Outbound
selector tag outbounds default =
    selector_group (record { tag = tag; outbounds = outbounds; default = default })
