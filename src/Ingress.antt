-- ===== src/Ingress.antt =====
-- The routes of the ingress controller, packages/ingress/src/ingress.ts: the Kubernetes objects
-- that the functions create, as values. An object is named by its Pulumi name; an output of Pulumi
-- is its value, and a dependency is the name of the resource.

pub mod Names
use jaritanet.Base.{
  ℕ, zero, suc, Bool, true, false, Option, none, some, List, [], ◌∷◌, ◌++◌, if◌then◌else◌, Text,
  codes, join,
}

-- The argument `routing`; a call without it reads as one whose fields are all undefined.
pub record Routing : Type 0 where
  pub paths : Option (List Text)
  pub priority : Option ℕ
  pub middlewares : Option (List Text)
  pub name : Option Text
  pub redirect : Option Bool
  pub depends_on : Option (List Text)

-- What both routes of a service carry. A priority that is left out is `none`.
pub record Rule : Type 0 where
  pub match_rule : Text
  pub priority : Option ℕ

-- An IngressRoute with its one route. Middlewares that are left out are none at all.
pub record IngressRoute : Type 0 where
  pub resource : Text
  pub name : Text
  pub namespace : Text
  pub entry_points : List Text
  pub rule : Rule
  pub middlewares : List Text
  pub service : Text
  pub port : ℕ
  pub cert_resolver : Option Text
  pub depends_on : List Text

pub data MiddlewareSpec : Type 0 where
  redirect_scheme : Bool → Text → MiddlewareSpec
  replace_path : Text → MiddlewareSpec

pub record Middleware : Type 0 where
  pub resource : Text
  pub name : Text
  pub namespace : Text
  pub spec : MiddlewareSpec
  pub depends_on : List Text

-- ``Host(`${hostname}`)``
abbrev pub host : Text → Text
host hostname = codes "Host(`" ++ (hostname ++ codes "`)")

-- `routeMatch`: no paths and an empty list of them are the same.
unfoldable pub route_match : Text → Option (List Text) → Text
unfolding join
route_match hostname none = host hostname
route_match hostname (some []) = host hostname
route_match hostname (some (p ∷ ps)) =
    host hostname ++ (codes " && (" ++ (join (codes " || ") (p ∷ ps) ++ codes ")"))

-- `priority && { priority }`: zero is left out as well.
abbrev pub stated : Option ℕ → Option ℕ
stated none = none
stated (some zero) = none
stated (some (suc n)) = some (suc n)

abbrev pub or_none : Option (List Text) → List Text
or_none none = []
or_none (some ts) = ts

-- `traefik ? [traefik] : []`
abbrev pub installed : Option Text → List Text
installed none = []
installed (some traefik) = traefik ∷ []

abbrev pub route_name : Text → Routing → Text
route_name service routing = elim routing.name [ none ↦ service | some name ↦ name ]

abbrev pub rule : Text → Routing → Rule
rule hostname routing = record {
  match_rule = route_match hostname (some (or_none routing.paths));
  priority = stated routing.priority;
}

unfoldable pub secure_route : Text → Text → Text → Option Text → Routing → IngressRoute
unfolding route_match
secure_route service hostname namespace traefik routing = record {
  resource = route_name service routing ++ codes "-ingress-route";
  name = route_name service routing ++ codes "-ingress";
  namespace = namespace;
  entry_points = codes "websecure" ∷ [];
  rule = rule hostname routing;
  middlewares = or_none routing.middlewares;
  service = service ++ codes "-service";
  port = 80;
  cert_resolver = some (codes "letsencrypt");
  depends_on = installed traefik ++ or_none routing.depends_on;
}

unfoldable pub redirect_route : Text → Text → Text → Option Text → Routing → IngressRoute
unfolding route_match
redirect_route service hostname namespace traefik routing = record {
  resource = route_name service routing ++ codes "-ingress-redirect";
  name = route_name service routing ++ codes "-redirect";
  namespace = namespace;
  entry_points = codes "web" ∷ [];
  rule = rule hostname routing;
  middlewares = codes "redirect-https" ∷ [];
  service = service ++ codes "-service";
  port = 80;
  cert_resolver = none;
  depends_on = installed traefik ++ or_none routing.depends_on;
}

-- `routing?.redirect === false`
abbrev pub is_redirected : Routing → Bool
is_redirected routing = elim routing.redirect [ none ↦ true | some redirect ↦ redirect ]

-- `createIngressRoute`: the routes that it makes, of which the first is returned.
unfoldable pub create_ingress_route : Text → Text → Text → Option Text → Routing → List IngressRoute
unfolding secure_route redirect_route
create_ingress_route service hostname namespace traefik routing =
    secure_route service hostname namespace traefik routing
    ∷ (if is_redirected routing
        then redirect_route service hostname namespace traefik routing ∷ []
        else [])

unfoldable pub create_redirect_middleware : Text → Option Text → Middleware
create_redirect_middleware namespace traefik = record {
  resource = codes "redirect-https";
  name = codes "redirect-https";
  namespace = namespace;
  spec = redirect_scheme true (codes "https");
  depends_on = installed traefik;
}

-- The argument `opts` of `createPathAlias`.
pub record PathAlias : Type 0 where
  pub hostname : Text
  pub from : Text
  pub to : Text
  pub service : Text
  pub namespace : Text
  pub traefik : Option Text

unfoldable pub create_path_alias : Text → PathAlias → Middleware × IngressRoute
create_path_alias name opts = (
  record {
    resource = name ++ codes "-rewrite";
    name = name ++ codes "-rewrite";
    namespace = opts.namespace;
    spec = replace_path opts.to;
    depends_on = installed opts.traefik;
  },
  record {
    resource = name ++ codes "-alias";
    name = name ++ codes "-alias";
    namespace = opts.namespace;
    entry_points = codes "websecure" ∷ [];
    rule = record {
      match_rule = host opts.hostname ++ (codes " && Path(`" ++ (opts.from ++ codes "`)"));
      priority = some 200;
    };
    middlewares = (name ++ codes "-rewrite") ∷ [];
    service = opts.service;
    port = 80;
    cert_resolver = some (codes "letsencrypt");
    depends_on = installed opts.traefik;
  },
)
