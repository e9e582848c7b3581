-- ===== src/Api/Router.antt =====
-- api/router/registry/registry.go: the routes of the services, and the choice of a route for a request. The
-- type `Regexp` with `compile_posix` and `match_string` stands for Go's package `regexp`. The order of a
-- `range` over a map is the order of its list. Logging is left out.

pub mod Matching
pub mod Stored
pub mod Total
use realmicro.Common.{
  ℕ, zero, suc, ◌+◌, Text, List, [], ◌∷◌, ◌++◌, Bool, true, false, not, ◌&&◌, ◌||◌, Option, none,
  some, teq, codes, any_of, length, get_elem?, drop, split, Map, lookup, insert, delete,
  if◌then◌else◌,
}
use realmicro.Registry.{Service}
use realmicro.Registry as Registry
use realmicro.HttpRule.Parser.{Result, ok, err, no_token, no_fuel, parse}
use realmicro.HttpRule.Compiler.{compile}
use realmicro.HttpRule.Types.{Template}
use realmicro.HttpRule.Runtime.{Pattern, new_pattern, Outcome, matched, not_match, panic, match}
use realmicro.Api.Endpoints.{Endpoint, decode, validate, Verdict, valid, starts, ends}
use realmicro.Api.Endpoints as Endpoints
use realmicro.Metadata as Metadata

-- `router.Route`; its endpoint is never nil here.
pub record Route : Type 0 where
  pub service : Text
  pub endpoint : Endpoint
  pub versions : List Service

pub record Request : Type 0 where
  pub method : Text
  pub url_host : Text
  pub url_path : Text

-- `endpoint`, with the compiled expressions.
pub record Compiled (Regexp : Type 0) : Type 0 where
  pub hostregs : List Regexp
  pub pathregs : List Pattern
  pub pcreregs : List Regexp

pub record Router (Regexp : Type 0) : Type 0 where
  pub eps : Map Route
  pub ceps : Map (Compiled Regexp)

abbrev pub is_any_host : Text → Bool
is_any_host [] = true
is_any_host (c ∷ h) = teq (c ∷ h) (codes "*")

-- fmt.Sprintf("%s.%s", service.Name, sep.Name)
abbrev pub route_key : Service → Registry.Endpoint → Text
route_key service sep = service.name ++ (codes "." ++ sep.name)

-- The new or the known route of a key with the endpoint put in and the service appended.
abbrev pub extend : Service → Endpoint → Option Route → Route
extend service end none = record { service = service.name; endpoint = end; versions = service ∷ [] }
extend service end (some ep) = record ep {
  endpoint = end;
  versions = ep.versions ++ (service ∷ []);
}

abbrev pub validated : Verdict → Map Route → Map Route → Option (Map Route)
validated Endpoints.valid eps added = some added
validated Endpoints.panic eps added = none
validated _ eps added = some eps

abbrev pub add_decoded :
    (Text → Bool) → Service → Registry.Endpoint → Map Route → Option Endpoint → Option (Map Route)
add_decoded compiles service sep eps none = some eps
add_decoded compiles service sep eps (some end) =
    validated (validate compiles (some end)) eps
      (insert (route_key service sep) (extend service end (lookup (route_key service sep) eps)) eps)

-- One round of the inner loop of `store`; `none` is a panic.
unfoldable pub add_endpoint :
    (Text → Bool) → Service → Registry.Endpoint → Map Route → Option (Map Route)
unfolding decode validate insert lookup
add_endpoint compiles service sep eps =
    add_decoded compiles service sep eps (decode (some sep.metadata))

unfoldable pub add_endpoints :
    (Text → Bool) → Service → List Registry.Endpoint → Map Route → Option (Map Route)
unfolding add_endpoint
add_endpoints compiles service [] eps = some eps
add_endpoints compiles service (sep ∷ seps) eps = elim (add_endpoint compiles service sep eps) [
  | none ↦ none
  | some eps' ↦ add_endpoints compiles service seps eps'
]

unfoldable pub add_services : (Text → Bool) → List Service → Map Route → Option (Map Route)
unfolding add_endpoints
add_services compiles [] eps = some eps
add_services compiles (s ∷ ss) eps = elim (add_endpoints compiles s s.endpoints eps) [
  | none ↦ none
  | some eps' ↦ add_services compiles ss eps'
]

-- The routes of services that are not named stay.
unfoldable pub keep_others : List Service → Map Route → Map Route
keep_others services [] = []
keep_others services ((k, route) ∷ eps) =
    let rest = keep_others services eps in
    if any_of (λ (s : Service). teq s.name route.service) services then rest else (k, route) ∷ rest

module _ (Regexp : Type 0) (compile_posix : Text → Option Regexp) where
  abbrev pub compiles_to : Option Regexp → Bool
  compiles_to none = false
  compiles_to (some r) = true

  abbrev pub add_compiled : Option Regexp → List Regexp → List Regexp
  add_compiled none rs = rs
  add_compiled (some r) rs = r ∷ rs

  unfoldable pub compile_hosts : List Text → List Regexp
  compile_hosts [] = []
  compile_hosts (h ∷ hs) =
      let rest = compile_hosts hs in
      if is_any_host h then rest else add_compiled (compile_posix h) rest

  -- The pattern of a path, if `Parse` and `NewPattern` give no error. The outer `none` is the panic of
  -- `Parse`, which reads the first of no tokens, or the end of the model's fuel.
  abbrev pub pattern_of : Result Template → Option (Option Pattern)
  pattern_of (err no_token) = none
  pattern_of (err no_fuel) = none
  pattern_of (err e) = some none
  pattern_of (ok rule) =
      let tpl = compile rule in some (new_pattern tpl.version tpl.op_codes tpl.pool [] true)

  abbrev pub add_pattern : Option Pattern → List Pattern → List Pattern
  add_pattern none ps = ps
  add_pattern (some p) ps = p ∷ ps

  -- The expression of a path, if it is one; the outer `none` is the panic at p[0].
  abbrev pub expression_of : Text → Option (Option Regexp)
  expression_of [] = none
  expression_of (c ∷ p) =
      some (if starts (c ∷ p) && ends (c ∷ p) then compile_posix (c ∷ p) else none)

  abbrev pub add_path :
      Option (Option Regexp)
      → Option (Option Pattern)
      → Option (List Pattern × List Regexp)
      → Option (List Pattern × List Regexp)
  add_path none q rest = none
  add_path (some e) none rest = none
  add_path (some e) (some q) none = none
  add_path (some e) (some q) (some (ps, rs)) = some (add_pattern q ps, add_compiled e rs)

  -- The loop over the paths; `none` is a panic.
  unfoldable pub compile_paths : List Text → Option (List Pattern × List Regexp)
  unfolding parse compile new_pattern
  compile_paths [] = some ([], [])
  compile_paths (p ∷ ps) = add_path (expression_of p) (pattern_of (parse p)) (compile_paths ps)

  abbrev pub with_paths :
      List Regexp → Option (List Pattern × List Regexp) → Option (Compiled Regexp)
  with_paths hosts none = none
  with_paths hosts (some (ps, rs)) =
      some (record { hostregs = hosts; pathregs = ps; pcreregs = rs })

  -- What the last loop of `store` makes of an endpoint; `none` is a panic.
  unfoldable pub compile_endpoint : Endpoint → Option (Compiled Regexp)
  unfolding compile_hosts compile_paths
  compile_endpoint e = with_paths (compile_hosts e.host) (compile_paths e.path)

  unfoldable pub put_routes : Map Route → Router Regexp → Option (Router Regexp)
  unfolding compile_endpoint insert
  put_routes [] r = some r
  put_routes ((name, ep) ∷ eps) r = elim (compile_endpoint ep.endpoint) [
    | none ↦ none
    | some cep ↦
        put_routes eps (record { eps = insert name ep r.eps; ceps = insert name cep r.ceps })
  ]

  abbrev pub replace : List Service → Router Regexp → Option (Map Route) → Option (Router Regexp)
  replace services r none = none
  replace services r (some eps) = put_routes eps (record r { eps = keep_others services r.eps })

  unfoldable pub store : List Service → Router Regexp → Option (Router Regexp)
  unfolding add_services keep_others put_routes
  store services r =
      replace services r (add_services (λ p. compiles_to (compile_posix p)) services [])

  abbrev pub new_router : Router Regexp
  new_router = record { eps = []; ceps = [] }

module _ (Regexp : Type 0) (match_string : Regexp → Text → Bool) where
  abbrev pub host_matches : Text → Option Regexp → Bool → Outcome Bool → Outcome Bool
  host_matches host reg true rest = matched true
  host_matches host none false rest = panic
  host_matches host (some reg) false rest = if match_string reg host then matched true else rest

  -- The loop over `ep.Host` from an index on; the expression at the index may be out of range.
  unfoldable pub match_hosts : List Regexp → Text → ℕ → List Text → Outcome Bool
  match_hosts regs host i [] = matched false
  match_hosts regs host i (h ∷ hs) =
      host_matches host (get_elem? regs i) (is_any_host h) (match_hosts regs host (i + 1) hs)

  abbrev pub or_path : Outcome (Map Text) → Outcome (Map Text) → Outcome (Map Text)
  or_path (matched fields) rest = matched fields
  or_path not_match rest = rest
  or_path panic rest = panic

  unfoldable pub match_paths : List Pattern → List Text → Outcome (Map Text)
  unfolding match
  match_paths [] path = not_match
  match_paths (p ∷ ps) path = or_path (match p path []) (match_paths ps path)

  -- The fields that the path gives a value; `none` where an expression matches it.
  abbrev pub or_pcre : Bool → Outcome (Map Text) → Outcome (Option (Map Text))
  or_pcre pcre (matched fields) = matched (some fields)
  or_pcre pcre panic = panic
  or_pcre pcre not_match = if pcre then matched none else not_match

  abbrev pub match_host : List Regexp → Text → List Text → Outcome Bool
  match_host regs host [] = matched true
  match_host regs host (h ∷ hs) = match_hosts regs host 0 (h ∷ hs)

  abbrev pub after_host : Outcome Bool → Outcome (Option (Map Text)) → Outcome (Option (Map Text))
  after_host panic rest = panic
  after_host not_match rest = not_match
  after_host (matched true) rest = rest
  after_host (matched false) rest = not_match

  -- The components of the path, without its first byte.
  unfoldable pub components : Text → List Text
  unfolding split
  components [] = split b'/' []
  components (c ∷ path) =
      if teq (c ∷ path) (codes "/") then split b'/' (c ∷ path) else split b'/' path

  -- One round of the loop of `Endpoint`, where the method matches.
  unfoldable pub match_route : Request → Route → Compiled Regexp → Outcome (Option (Map Text))
  unfolding match_hosts match_paths components
  match_route req route cep =
      let ep = route.endpoint in
      if not (any_of (λ m. teq m req.method) ep.method)
      then not_match
      else after_host (match_host cep.hostregs req.url_host ep.host) (
          or_pcre (any_of (λ (r : Regexp). match_string r req.url_path) cep.pcreregs)
            (match_paths cep.pathregs (components req.url_path)))

  abbrev pub Found : Type 0
  Found = Outcome (Route × Option (Map Text))

  abbrev pub or_next : Route → Outcome (Option (Map Text)) → Found → Found
  or_next route (matched fields) rest = matched (route, fields)
  or_next route not_match rest = rest
  or_next route panic rest = panic

  abbrev pub try_route : Request → Route → Option (Compiled Regexp) → Found → Found
  try_route req route none rest = rest
  try_route req route (some cep) rest = or_next route (match_route req route cep) rest

  -- The loop of `Endpoint` over the routes.
  unfoldable pub first_route : Request → Map (Compiled Regexp) → Map Route → Found
  unfolding match_route lookup
  first_route req ceps [] = not_match
  first_route req ceps ((n, route) ∷ eps) =
      try_route req route (lookup n ceps) (first_route req ceps eps)

  -- `Endpoint` of a router that is not stopped.
  unfoldable pub endpoint : Request → Router Regexp → Found
  unfolding first_route
  endpoint req r = first_route req r.ceps r.eps

-- md["x-api-field-" + k] = v for the fields of a path
unfoldable pub set_fields : Map Text → Map Text → Map Text
unfolding insert
set_fields [] md = md
set_fields ((k, v) ∷ fields) md = set_fields fields (insert (codes "x-api-field-" ++ k) v md)

-- The metadata of the request's context after `Endpoint`.
unfoldable pub with_fields : Option (Map Text) → Metadata.Context → Metadata.Context
unfolding set_fields
with_fields none ctx = ctx
with_fields (some fields) ctx = some (set_fields fields (Metadata.or_empty ctx))

-- What `Route` returns.
pub data Routed : Type 0 where
  routed : Route → Routed
  router_closed unresolved unknown_service unknown_handler route_panic : Routed

-- `resolver.Endpoint`
pub record Resolved : Type 0 where
  pub name : Text
  pub method : Text
  pub path : Text

-- The name of the method from the components of the path.
abbrev pub method_name : Text → List Text → Text
method_name method (a ∷ b ∷ c ∷ []) = b ++ (codes "." ++ c)
method_name method (a ∷ b ∷ c ∷ d ∷ []) = c ++ (codes "." ++ d)
method_name method _ = method

abbrev pub any_of_texts : Text → List Text → Bool
any_of_texts t ts = any_of (teq t) ts

-- The route that `Route` makes where no endpoint matches: `url` is `req.URL.String()` and `host` is `req.Host`.
unfoldable pub default_route : Text → Text → Text → Request → Resolved → List Service → Routed
unfolding teq split
default_route handler url host req rsp services =
    if any_of_texts handler (codes "meta" ∷ codes "api" ∷ codes "rpc" ∷ [])
    then routed (record {
      service = rsp.name;
      endpoint = record {
        name = method_name rsp.method (split b'/' rsp.path);
        description = [];
        handler = if teq handler (codes "meta") then codes "rpc" else handler;
        host = [];
        method = [];
        path = [];
        stream = false;
      };
      versions = services;
    })
    else if any_of_texts handler (codes "http" ∷ codes "proxy" ∷ codes "web" ∷ [])
    then routed (record {
      service = rsp.name;
      endpoint = record {
        name = url;
        description = [];
        handler = handler;
        host = host ∷ [];
        method = req.method ∷ [];
        path = req.url_path ∷ [];
        stream = false;
      };
      versions = services;
    })
    else unknown_handler

-- `Route`, by whether the router is stopped and what `Endpoint` gives. `resolve` stands for the resolver of
-- the options, and `get_service` for the registry's cache; `none` is an error of theirs.
abbrev pub with_services : (List Service → Routed) → Option (List Service) → Routed
with_services k none = unknown_service
with_services k (some services) = k services

abbrev pub with_resolved : (Resolved → Routed) → Option Resolved → Routed
with_resolved k none = unresolved
with_resolved k (some rsp) = k rsp

module _ (resolve : Request → Option Resolved) (get_service : Text → Option (List Service)) where
  abbrev pub route_found :
      Text → Text → Text → Request → Outcome (Route × Option (Map Text)) → Routed
  route_found handler url host req panic = route_panic
  route_found handler url host req (matched (r, fields)) = routed r
  route_found handler url host req not_match =
      with_resolved
        (λ rsp. with_services (default_route handler url host req rsp) (get_service rsp.name))
        (resolve req)

  unfoldable pub route :
      {Regexp : Type 0}
      → (Regexp → Text → Bool)
      → Text
      → Text
      → Text
      → Bool
      → Request
      → Router Regexp
      → Routed
  unfolding endpoint default_route
  route {Regexp} match_string handler url host is_stopped req r =
      if is_stopped
      then router_closed
      else route_found handler url host req (endpoint Regexp match_string req r)
