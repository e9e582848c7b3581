-- ===== src/Api/Router/Total.antt =====
-- The updates of the router do not panic.
use realmicro.Common.{
  ◌≡◌, ◌≢◌, refl, ap, ◌∙◌, Text, List, [], ◌∷◌, Bool, Option, none, some, Map, All, insert, lookup,
  teq, Bool-cases, inl, inr,
}
use realmicro.Registry.{Service}
use realmicro.Registry as Registry
use realmicro.HttpRule.Parser.{
  Result, ok, err, no_leading_slash, unexpected_token, unterminated_variable,
  invalid_path_component, expected_term, expected_eof, bad_ident, bad_pchars, no_token, no_fuel,
  parse,
}
use realmicro.HttpRule.Parser.Total.{parse_total}
use realmicro.HttpRule.Runtime.{Pattern}
use realmicro.Api.Endpoints.{
  Endpoint, decode, validate, Verdict, valid, endpoint_is_nil, name_required, bad_regexp,
  invalid_path, invalid_handler, panic,
}
use realmicro.Api.Endpoints.Checked.{IsRoutable, validate-valid, validate-decode}
use realmicro.Api.Router.{
  Route, Compiled, Router, route_key, extend, validated, add_decoded, add_endpoint, add_endpoints,
  add_services, keep_others, compiles_to, pattern_of, expression_of, add_path, compile_paths,
  compile_hosts, with_paths, compile_endpoint, put_routes, replace, store,
}
use realmicro.Api.Router.Stored.{store_all}

-- The paths of the endpoint are not empty.
abbrev HasPaths : Text × Route → Type 0
HasPaths (k, route) = All (λ p. p ≢ []) route.endpoint.path

insert-HasPaths :
    (k : Text) (route : Route) (eps : Map Route)
    → HasPaths (k, route)
    → All HasPaths eps
    → All HasPaths (insert k route eps)
unfolding insert
insert-HasPaths k route [] h all = (h, tt)
insert-HasPaths k route ((j, old) ∷ eps) h all = elim (Bool-cases (teq j k)) [
  | inl e ↦ rw e (h, all.1)
  | inr e ↦ rw e (all.0, insert-HasPaths k route eps h all.1)
]

validated-some :
    (v : Verdict) (eps added : Map Route)
    → v ≢ panic
    → All HasPaths eps
    → (v ≡ valid → All HasPaths added)
    → (eps' : Map Route) × (validated v eps added ≡ some eps') × All HasPaths eps'
validated-some valid eps added h all new = (added, refl, new refl)
validated-some panic eps added h all new = absurd (h refl)
validated-some endpoint_is_nil eps added h all new = (eps, refl, all)
validated-some name_required eps added h all new = (eps, refl, all)
validated-some bad_regexp eps added h all new = (eps, refl, all)
validated-some invalid_path eps added h all new = (eps, refl, all)
validated-some invalid_handler eps added h all new = (eps, refl, all)

extend-endpoint :
    (service : Service) (end : Endpoint) (o : Option Route) → (extend service end o).endpoint ≡ end
extend-endpoint service end none = refl
extend-endpoint service end (some ep) = refl

module _ (compiles : Text → Bool) where
  nonempty : (ps : List Text) → All (IsRoutable compiles) ps → All (λ p. p ≢ []) ps
  nonempty [] h = tt
  nonempty (p ∷ ps) h = (h.0.0, nonempty ps h.1)

  add_decoded-some :
      (service : Service) (sep : Registry.Endpoint) (eps : Map Route) (o : Option Endpoint)
      → validate compiles o ≢ panic
      → All HasPaths eps
      → (eps' : Map Route) × (add_decoded compiles service sep eps o ≡ some eps')
        × All HasPaths eps'
  add_decoded-some service sep eps none h all = (eps, refl, all)
  add_decoded-some service sep eps (some end) h all =
      validated-some (validate compiles (some end)) eps _ h all (λ v.
        insert-HasPaths (route_key service sep) _ eps
          (rw (extend-endpoint service end (lookup (route_key service sep) eps))
            (nonempty end.path ((validate-valid compiles end).1.0 v).2))
          all)

  add_endpoints-some :
      (service : Service) (seps : List Registry.Endpoint) (eps : Map Route)
      → All HasPaths eps
      → (eps' : Map Route) × (add_endpoints compiles service seps eps ≡ some eps')
        × All HasPaths eps'
  unfolding add_endpoints add_endpoint
  add_endpoints-some service [] eps all = (eps, refl, all)
  add_endpoints-some service (sep ∷ seps) eps all =
      let (eps1, e, all1) =
        add_decoded-some service sep eps (decode (some sep.metadata))
          (validate-decode compiles (some sep.metadata)) all in
      let (eps', rest, all') = add_endpoints-some service seps eps1 all1 in
      (eps', rw (e, add_endpoints) rest, all')

  add_services-some :
      (services : List Service) (eps : Map Route)
      → All HasPaths eps
      → (eps' : Map Route) × (add_services compiles services eps ≡ some eps') × All HasPaths eps'
  unfolding add_services
  add_services-some [] eps all = (eps, refl, all)
  add_services-some (s ∷ ss) eps all =
      let (eps1, e, all1) = add_endpoints-some s s.endpoints eps all in
      let (eps', rest, all') = add_services-some ss eps1 all1 in
      (eps', rw (e, add_services) rest, all')

module _ (Regexp : Type 0) (compile_posix : Text → Option Regexp) where
  pattern_of-some :
      (r : Result _)
      → r ≢ err no_token
      → r ≢ err no_fuel
      → (q : Option Pattern) × (pattern_of Regexp compile_posix r ≡ some q)
  pattern_of-some (ok rule) h k = (_, refl)
  pattern_of-some (err no_token) h k = absurd (h refl)
  pattern_of-some (err no_fuel) h k = absurd (k refl)
  pattern_of-some (err no_leading_slash) h k = (none, refl)
  pattern_of-some (err unexpected_token) h k = (none, refl)
  pattern_of-some (err unterminated_variable) h k = (none, refl)
  pattern_of-some (err invalid_path_component) h k = (none, refl)
  pattern_of-some (err expected_term) h k = (none, refl)
  pattern_of-some (err expected_eof) h k = (none, refl)
  pattern_of-some (err bad_ident) h k = (none, refl)
  pattern_of-some (err bad_pchars) h k = (none, refl)

  compile_paths-some :
      (ps : List Text)
      → All (λ p. p ≢ []) ps
      → (l : List Pattern × List Regexp) × (compile_paths Regexp compile_posix ps ≡ some l)
  unfolding compile_paths
  compile_paths-some [] h = (_, refl)
  compile_paths-some ([] ∷ ps) h = absurd (h.0 refl)
  compile_paths-some ((c ∷ p) ∷ ps) h =
      let (q, e) =
        pattern_of-some (parse (c ∷ p)) (parse_total (c ∷ p)).0 (parse_total (c ∷ p)).1 in
      let ((qs, es), rest) = compile_paths-some ps h.1 in
      (
        _,
        ap
              (λ x.
                add_path Regexp compile_posix (expression_of Regexp compile_posix (c ∷ p)) x
                  (compile_paths Regexp compile_posix ps))
              e
            ∙ ap
                (add_path Regexp compile_posix (expression_of Regexp compile_posix (c ∷ p))
                  (some q))
                rest,
      )

  put_routes-some :
      (eps : Map Route) (r : Router Regexp)
      → All HasPaths eps
      → (r' : Router Regexp) × (put_routes Regexp compile_posix eps r ≡ some r')
  unfolding put_routes compile_endpoint
  put_routes-some [] r all = (r, refl)
  put_routes-some ((name, ep) ∷ eps) r all =
      let ((ps, rs), e) = compile_paths-some ep.endpoint.path all.0 in
      let hosts = compile_hosts Regexp compile_posix ep.endpoint.host in
      let cep : Compiled Regexp = record { hostregs = hosts; pathregs = ps; pcreregs = rs } in
      let (r', rest) =
        put_routes-some eps (record { eps = insert name ep r.eps; ceps = insert name cep r.ceps })
          all.1 in
      (r', rw (ap (with_paths Regexp compile_posix hosts) e, put_routes) rest)

  store-some :
      (services : List Service) (r : Router Regexp)
      → (r' : Router Regexp) × (store Regexp compile_posix services r ≡ some r')
  unfolding store
  store-some services r =
      let (added, e, all) =
        add_services-some (λ p. compiles_to Regexp compile_posix (compile_posix p)) services []
          tt in
      let (r', put) = put_routes-some added (record r { eps = keep_others services r.eps }) all in
      (r', ap (replace Regexp compile_posix services r) e ∙ put)

  -- Whatever services the registry reports, and in whatever order, `store` does not panic: the updates
  -- give a router. Neither `Validate` nor the last loop reads a byte of an empty path, and `Parse`
  -- does not read past its tokens.
  pub store_all_total :
      (match_string : Regexp → Text → Bool) (updates : List (List Service)) (r : Router Regexp)
      → (r' : Router Regexp) × (store_all Regexp compile_posix match_string updates r ≡ some r')
  unfolding store_all
  store_all_total match_string [] r = (r, refl)
  store_all_total match_string (services ∷ more) r =
      let (r1, e) = store-some services r in
      let (r', rest) = store_all_total match_string more r1 in (r', rw (e, store_all) rest)
