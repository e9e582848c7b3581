-- ===== src/Api/Router/Stored.antt =====
-- The routes of the router after any updates, and what `Endpoint` chooses among them.
use mathlib.Core.Option.{some-injective}
use realmicro.Common.{
  ◌≡◌, refl, sym, ap, ◌∙◌, subst, Text, List, [], ◌∷◌, Bool, false, Option, none, some, teq,
  teq_iff, teq_refl, any_of, All, Map, Distinct, insert-Distinct, lookup, insert, lookup-insert,
  Bool-cases, Option-cases, inl, inr, arith,
}
use realmicro.Registry.{Service}
use realmicro.Api.Router.{
  Route, Request, Compiled, Router, compiles_to, compile_endpoint, add_services, keep_others,
  put_routes, replace, store, new_router, endpoint,
}
use realmicro.Api.Router.Matching.{
  HostsCompile, IsCompiled, compiled_of, compile_endpoint-compiled, first_route-first_accepting,
  first_accepting, outcome_of,
}

lookup-keep_others :
    (services : List Service) (k : Text) (eps : Map Route)
    → lookup k eps ≡ none
    → lookup k (keep_others services eps) ≡ none
unfolding lookup keep_others
lookup-keep_others services k [] h = refl
lookup-keep_others services k ((j, route) ∷ eps) h = elim (Bool-cases (teq j k)) [
  | inl e ↦ absurd (ground arith)
  | inr e ↦
      let rest = lookup-keep_others services k eps (rw e at h) in
      elim (Bool-cases (any_of (λ (s : Service). teq s.name route.service) services)) [
        | inl named ↦ rw named rest
        | inr other ↦ rw other (rw e rest)
      ]
]

keep_others-Distinct :
    (services : List Service) (eps : Map Route) → Distinct eps → Distinct (keep_others services eps)
unfolding keep_others
keep_others-Distinct services [] d = tt
keep_others-Distinct services ((k, route) ∷ eps) d =
    elim (Bool-cases (any_of (λ (s : Service). teq s.name route.service) services)) [
      | inl named ↦ rw named (keep_others-Distinct services eps d.1)
      | inr other ↦
          rw other (lookup-keep_others services k eps d.0, keep_others-Distinct services eps d.1)
    ]

All-keep_others :
    (P : Text × Route → Type 0) (services : List Service) (eps : Map Route)
    → All P eps
    → All P (keep_others services eps)
unfolding keep_others
All-keep_others P services [] h = tt
All-keep_others P services ((k, route) ∷ eps) h =
    elim (Bool-cases (any_of (λ (s : Service). teq s.name route.service) services)) [
      | inl named ↦ rw named (All-keep_others P services eps h.1)
      | inr other ↦ rw other (h.0, All-keep_others P services eps h.1)
    ]

module _ (Regexp : Type 0) (compile_posix : Text → Option Regexp)
    (match_string : Regexp → Text → Bool) where
  -- The routes have different names, and each has its endpoint's expressions.
  record IsStored (r : Router Regexp) : Type 0 where
    distinct : Distinct r.eps
    compiled : All (IsCompiled Regexp compile_posix match_string r.ceps) r.eps

  -- An entry under another name keeps its expressions.
  IsCompiled-insert :
      (k j : Text) (c : Compiled Regexp) (ceps : Map (Compiled Regexp)) (route : Route)
      → teq k j ≡ false
      → IsCompiled Regexp compile_posix match_string ceps (j, route)
      → IsCompiled Regexp compile_posix match_string (insert k c ceps) (j, route)
  IsCompiled-insert k j c ceps route ne h = lookup-insert k j c ceps ∙ rw ne h

  All-insert_absent :
      (k : Text) (c : Compiled Regexp) (ceps : Map (Compiled Regexp)) (eps : Map Route)
      → lookup k eps ≡ none
      → All (IsCompiled Regexp compile_posix match_string ceps) eps
      → All (IsCompiled Regexp compile_posix match_string (insert k c ceps)) eps
  unfolding lookup
  All-insert_absent k c ceps [] absent h = tt
  All-insert_absent k c ceps ((j, route) ∷ eps) absent h = elim (Bool-cases (teq j k)) [
    | inl e ↦ absurd (ground arith)
    | inr e ↦ (
      IsCompiled-insert k j c ceps route (ground (arith, teq_iff j k, teq_iff k j)) h.0,
      All-insert_absent k c ceps eps (rw e at absent) h.1,
    )
  ]

  All-insert :
      (k : Text) (route : Route) (ceps : Map (Compiled Regexp)) (eps : Map Route)
      → Distinct eps
      → All (IsCompiled Regexp compile_posix match_string ceps) eps
      → All
          (IsCompiled Regexp compile_posix match_string
            (insert k (compiled_of Regexp compile_posix match_string route.endpoint) ceps))
          (insert k route eps)
  unfolding insert
  All-insert k route ceps [] d h = (
    lookup-insert k k (compiled_of Regexp compile_posix match_string route.endpoint) ceps
        ∙ rw (teq_refl k) refl,
    tt,
  )
  All-insert k route ceps ((j, old) ∷ eps) d h = elim (Bool-cases (teq j k)) [
    | inl e ↦ rw e (
      lookup-insert k k (compiled_of Regexp compile_posix match_string route.endpoint) ceps
          ∙ rw (teq_refl k) refl,
      All-insert_absent k (compiled_of Regexp compile_posix match_string route.endpoint) ceps eps
          (ap (λ x. lookup x eps) (sym ((teq_iff j k).0 e)) ∙ d.0) h.1,
    )
    | inr e ↦ rw e (
      IsCompiled-insert k j (compiled_of Regexp compile_posix match_string route.endpoint) ceps old
          (ground (arith, teq_iff j k, teq_iff k j)) h.0,
      All-insert k route ceps eps d.1 h.1,
    )
  ]

  put_routes-IsStored :
      (added : Map Route) (r r' : Router Regexp)
      → IsStored r
      → put_routes Regexp compile_posix added r ≡ some r'
      → IsStored r'
  unfolding put_routes
  put_routes-IsStored [] r r' h q = subst IsStored (some-injective _ _ q) h
  put_routes-IsStored ((name, ep) ∷ added) r r' h q =
      elim (Option-cases (compile_endpoint Regexp compile_posix ep.endpoint)) [
        | inl e ↦ absurd (ground arith)
        | inr (cep, e) ↦
            let its : cep ≡ compiled_of Regexp compile_posix match_string ep.endpoint =
              compile_endpoint-compiled Regexp compile_posix match_string ep.endpoint cep e in
            put_routes-IsStored added
              (record { eps = insert name ep r.eps; ceps = insert name cep r.ceps }) r'
              (record {
                distinct = insert-Distinct name ep r.eps h.distinct;
                compiled =
                    subst
                      (λ x.
                        All (IsCompiled Regexp compile_posix match_string (insert name x r.ceps))
                          (insert name ep r.eps))
                      (sym its) (All-insert name ep r.ceps r.eps h.distinct h.compiled);
              })
              (rw (e, put_routes) at q)
      ]

  store-IsStored :
      (services : List Service) (r r' : Router Regexp)
      → IsStored r
      → store Regexp compile_posix services r ≡ some r'
      → IsStored r'
  unfolding store
  store-IsStored services r r' h e =
      go (add_services (λ p. compiles_to Regexp compile_posix (compile_posix p)) services []) e
    where
      go :
          (o : Option (Map Route))
          → replace Regexp compile_posix services r o ≡ some r'
          → IsStored r'
      go none q = absurd (ground arith)
      go (some added) q =
          put_routes-IsStored added (record r { eps = keep_others services r.eps }) r'
            (record {
              distinct = keep_others-Distinct services r.eps h.distinct;
              compiled = All-keep_others _ services r.eps h.compiled;
            })
            q

  -- Updates in order, from the watcher or from the refresh.
  unfoldable pub store_all : List (List Service) → Router Regexp → Option (Router Regexp)
  store_all [] r = some r
  store_all (services ∷ more) r = elim (store Regexp compile_posix services r) [
    | none ↦ none
    | some r' ↦ store_all more r'
  ]

  store_all-IsStored :
      (updates : List (List Service)) (r r' : Router Regexp)
      → IsStored r
      → store_all updates r ≡ some r'
      → IsStored r'
  unfolding store_all
  store_all-IsStored [] r r' h e = subst IsStored (some-injective _ _ e) h
  store_all-IsStored (services ∷ more) r r' h e =
      elim (Option-cases (store Regexp compile_posix services r)) [
        | inl q ↦ absurd (ground arith)
        | inr (r1, q) ↦
            store_all-IsStored more r1 r' (store-IsStored services r r1 h q)
              (rw (q, store_all) at e)
      ]

  -- After any updates of the router, `Endpoint` gives the first route, in the order in which the map
  -- is ranged over, whose endpoint takes the request: its methods have that of the request, it has
  -- no hosts, any host or one that matches, and a path whose template matches, with the fields that
  -- the first such template gives, or else a path that is an expression that matches. It finds none
  -- where no route takes the request, and does not panic. The condition is that the hosts of the
  -- endpoints that are no wildcards compile.
  pub endpoint-first_accepting :
      (updates : List (List Service)) (req : Request) (r : Router Regexp)
      → store_all updates (new_router Regexp compile_posix) ≡ some r
      → All
          (λ (e : Text × Route). HostsCompile Regexp compile_posix match_string e.1.endpoint.host)
          r.eps
      → endpoint Regexp match_string req r
        ≡ outcome_of Regexp compile_posix match_string
            (first_accepting Regexp compile_posix match_string req r.eps)
  unfolding endpoint
  endpoint-first_accepting updates req r e hosts =
      let stored =
        store_all-IsStored updates (new_router Regexp compile_posix) r
          (record { distinct = tt; compiled = tt }) e in
      first_route-first_accepting Regexp compile_posix match_string req r.ceps r.eps stored.compiled
        hosts
