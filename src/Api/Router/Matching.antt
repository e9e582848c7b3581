-- ===== src/Api/Router/Matching.antt =====
-- What `Endpoint` of the router chooses, told by the endpoints of the routes alone.
use mathlib.Core.Option.{some-injective}
use realmicro.Common.{
  ◌+◌, ◌≡◌, ◌≢◌, refl, sym, ap, ap₂, ◌∙◌, Text, List, [], ◌∷◌, ◌++◌, Bool, true, false, not, ◌&&◌,
  ◌||◌, Option, none, some, teq, any_of, length, get_elem?, All, Map, lookup, if◌then◌else◌,
  append_assoc, length-append, get_elem?-append_length, ◌⊎◌, inl, inr,
}
use realmicro.HttpRule.Parser.{
  Result, ok, err, no_leading_slash, unexpected_token, unterminated_variable,
  invalid_path_component, expected_term, expected_eof, bad_ident, bad_pchars, no_token, no_fuel,
  parse,
}
use realmicro.HttpRule.Compiler.{compile}
use realmicro.HttpRule.Types.{Template}
use realmicro.HttpRule.Runtime.{Pattern, new_pattern, Outcome, matched, not_match, panic, match}
use realmicro.HttpRule.Runtime.Safety.{match-ne-panic}
use realmicro.Api.Endpoints.{Endpoint, starts, ends}
use realmicro.Api.Router.{
  Route, Request, Compiled, is_any_host, compiles_to, add_compiled, compile_hosts, pattern_of,
  add_pattern, with_paths, compile_paths, compile_endpoint, host_matches, match_hosts, match_host,
  match_paths, or_path, or_pcre, after_host, components, match_route, or_next, first_route,
}

module _ (Regexp : Type 0) (compile_posix : Text → Option Regexp)
    (match_string : Regexp → Text → Bool) where
  -- The expression compiles and matches.
  abbrev pub matches : Option Regexp → Text → Bool
  matches none t = false
  matches (some r) t = match_string r t

  -- A host, or any host where there is none.
  abbrev pub allows_host : List Text → Text → Bool
  allows_host [] host = true
  allows_host (h ∷ hs) host = any_of (λ h. is_any_host h || matches (compile_posix h) host) (h ∷ hs)

  -- The expressions of an endpoint, with nothing from a path that is none.
  abbrev pub pattern_or_none : Result Template → Option Pattern
  pattern_or_none (err e) = none
  pattern_or_none (ok rule) =
      let tpl = compile rule in new_pattern tpl.version tpl.op_codes tpl.pool [] true

  unfoldable pub patterns_of : List Text → List Pattern
  patterns_of [] = []
  patterns_of (p ∷ ps) =
      add_pattern Regexp compile_posix (pattern_or_none (parse p)) (patterns_of ps)

  unfoldable pub expressions_of : List Text → List Regexp
  expressions_of [] = []
  expressions_of (p ∷ ps) =
      let rest = expressions_of ps in
      if starts p && ends p then add_compiled Regexp compile_posix (compile_posix p) rest else rest

  unfoldable pub compiled_of : Endpoint → Compiled Regexp
  unfolding patterns_of expressions_of
  compiled_of e = record {
    hostregs = compile_hosts Regexp compile_posix e.host;
    pathregs = patterns_of e.path;
    pcreregs = expressions_of e.path;
  }

  abbrev pub fields_or : Outcome (Map Text) → Option (Map Text) → Option (Map Text)
  fields_or (matched fields) rest = some fields
  fields_or not_match rest = rest
  fields_or panic rest = rest

  abbrev pub fields_of_pattern : Option Pattern → List Text → Option (Map Text) → Option (Map Text)
  fields_of_pattern none path rest = rest
  fields_of_pattern (some p) path rest = fields_or (match p path []) rest

  -- The fields that the first template of the paths that matches gives.
  unfoldable pub template_fields : List Text → List Text → Option (Map Text)
  template_fields [] path = none
  template_fields (p ∷ ps) path =
      fields_of_pattern (pattern_or_none (parse p)) path (template_fields ps path)

  abbrev pub or_expression : Bool → Option (Map Text) → Option (Option (Map Text))
  or_expression b (some fields) = some (some fields)
  or_expression true none = some none
  or_expression false none = none

  -- Whether an endpoint takes a request, and with which fields.
  unfoldable pub accepts : Request → Endpoint → Option (Option (Map Text))
  accepts req ep =
      if any_of (λ m. teq m req.method) ep.method && allows_host ep.host req.url_host
      then or_expression
          (any_of (λ p. starts p && (ends p && matches (compile_posix p) req.url_path)) ep.path)
          (template_fields ep.path (components Regexp match_string req.url_path))
      else none

  abbrev pub or_later :
      Route
      → Option (Option (Map Text))
      → Option (Route × Option (Map Text))
      → Option (Route × Option (Map Text))
  or_later route none rest = rest
  or_later route (some fields) rest = some (route, fields)

  -- The first route that takes a request.
  unfoldable pub first_accepting : Request → Map Route → Option (Route × Option (Map Text))
  first_accepting req [] = none
  first_accepting req ((n, route) ∷ eps) =
      or_later route (accepts req route.endpoint) (first_accepting req eps)

  abbrev pub outcome_of {ℓ} : {A : Type ℓ} → Option A → Outcome A
  outcome_of none = not_match
  outcome_of (some a) = matched a

  pattern_of-cases :
      (r : Result Template)
      → (pattern_of Regexp compile_posix r ≡ none)
        ⊎ (pattern_of Regexp compile_posix r ≡ some (pattern_or_none r))
  pattern_of-cases (ok rule) = inr refl
  pattern_of-cases (err no_token) = inl refl
  pattern_of-cases (err no_fuel) = inl refl
  pattern_of-cases (err no_leading_slash) = inr refl
  pattern_of-cases (err unexpected_token) = inr refl
  pattern_of-cases (err unterminated_variable) = inr refl
  pattern_of-cases (err invalid_path_component) = inr refl
  pattern_of-cases (err expected_term) = inr refl
  pattern_of-cases (err expected_eof) = inr refl
  pattern_of-cases (err bad_ident) = inr refl
  pattern_of-cases (err bad_pchars) = inr refl

  -- Where the loop over the paths does not panic, it gives the two lists.
  compile_paths-cases :
      (ps : List Text)
      → (compile_paths Regexp compile_posix ps ≡ none)
        ⊎ (compile_paths Regexp compile_posix ps ≡ some (patterns_of ps, expressions_of ps))
  unfolding compile_paths patterns_of expressions_of
  compile_paths-cases [] = inr refl
  compile_paths-cases ([] ∷ ps) = inl refl
  compile_paths-cases ((c ∷ p) ∷ ps) =
      path (pattern_of-cases (parse (c ∷ p))) (compile_paths-cases ps)
    where
      added :
          (b : Bool) (o : Option Regexp) (rs : List Regexp)
          → add_compiled Regexp compile_posix (if b then o else none) rs
            ≡ (if b then add_compiled Regexp compile_posix o rs else rs)
      added true o rs = refl
      added false o rs = refl

      path :
          ((pattern_of Regexp compile_posix (parse (c ∷ p)) ≡ none)
            ⊎ (pattern_of Regexp compile_posix (parse (c ∷ p))
                ≡ some (pattern_or_none (parse (c ∷ p)))))
          → ((compile_paths Regexp compile_posix ps ≡ none)
              ⊎ (compile_paths Regexp compile_posix ps ≡ some (patterns_of ps, expressions_of ps)))
          → (compile_paths Regexp compile_posix ((c ∷ p) ∷ ps) ≡ none)
            ⊎ (compile_paths Regexp compile_posix ((c ∷ p) ∷ ps)
                ≡ some (patterns_of ((c ∷ p) ∷ ps), expressions_of ((c ∷ p) ∷ ps)))
      path (inl e) rest = inl (rw e refl)
      path (inr e) (inl r) = inl (rw (e, r) refl)
      path (inr e) (inr r) = inr (
          rw (e, r)
            (ap
              (λ l. some (
                add_pattern Regexp compile_posix (pattern_or_none (parse (c ∷ p))) (patterns_of ps),
                l,
              ))
              (added (starts (c ∷ p) && ends (c ∷ p)) (compile_posix (c ∷ p)) (expressions_of ps))))

  pub compile_endpoint-compiled :
      (e : Endpoint) (cep : Compiled Regexp)
      → compile_endpoint Regexp compile_posix e ≡ some cep
      → cep ≡ compiled_of e
  unfolding compile_endpoint compiled_of
  compile_endpoint-compiled e cep h = elim (compile_paths-cases e.path) [
    | inl q ↦ absurd (nothing (sym (ap (with_paths Regexp compile_posix hosts) q) ∙ h))
    | inr q ↦ some-injective _ _ (sym h ∙ ap (with_paths Regexp compile_posix hosts) q)
  ]
    where
      hosts : List Regexp
      hosts = compile_hosts Regexp compile_posix e.host

      nothing : ◌≡◌ {A = Option (Compiled Regexp)} none (some cep) → ⊥
      nothing q = cc

  match_paths-fields :
      (ps path : List Text)
      → match_paths Regexp match_string (patterns_of ps) path ≡ outcome_of (template_fields ps path)
  unfolding match_paths patterns_of template_fields
  match_paths-fields [] path = refl
  match_paths-fields (p ∷ ps) path = parsed (parse p) (match_paths-fields ps path)
    where
      tried :
          (q : Pattern) (m : Outcome (Map Text)) (rest : Outcome (Map Text))
          (later : Option (Map Text))
          → m ≢ panic
          → rest ≡ outcome_of later
          → or_path Regexp match_string m rest ≡ outcome_of (fields_or m later)
      tried q (matched fields) rest later h e = refl
      tried q not_match rest later h e = e
      tried q panic rest later h e = absurd (h refl)

      built :
          (rule : Template) (o : Option Pattern)
          → pattern_or_none (ok rule) ≡ o
          → match_paths Regexp match_string (patterns_of ps) path
            ≡ outcome_of (template_fields ps path)
          → match_paths Regexp match_string
              (add_pattern Regexp compile_posix o (patterns_of ps))
              path
            ≡ outcome_of (fields_of_pattern o path (template_fields ps path))
      built rule none e ih = ih
      built rule (some q) e ih =
          let tpl = compile rule in
          tried q (match q path []) _ (template_fields ps path)
            (match-ne-panic tpl.version tpl.op_codes tpl.pool [] true path [] e) ih

      parsed :
          (r : Result Template)
          → match_paths Regexp match_string (patterns_of ps) path
            ≡ outcome_of (template_fields ps path)
          → match_paths Regexp match_string
              (add_pattern Regexp compile_posix (pattern_or_none r) (patterns_of ps))
              path
            ≡ outcome_of (fields_of_pattern (pattern_or_none r) path (template_fields ps path))
      parsed (err e) ih = ih
      parsed (ok rule) ih = built rule (pattern_or_none (ok rule)) refl ih

  pcres-any :
      (ps : List Text) (t : Text)
      → any_of (λ (r : Regexp). match_string r t) (expressions_of ps)
        ≡ any_of (λ p. starts p && (ends p && matches (compile_posix p) t)) ps
  unfolding expressions_of
  pcres-any [] t = refl
  pcres-any (p ∷ ps) t = go (starts p) (ends p) (compile_posix p) _ _ (pcres-any ps t)
    where
      go :
          (s e : Bool) (o : Option Regexp) (rest : List Regexp) (later : Bool)
          → any_of (λ (r : Regexp). match_string r t) rest ≡ later
          → any_of
              (λ (r : Regexp). match_string r t)
              (if s && e then add_compiled Regexp compile_posix o rest else rest)
            ≡ (s && (e && matches o t) || later)
      go true true none rest later ih = ih
      go true true (some r) rest later ih = ap (λ b. match_string r t || b) ih
      go true false o rest later ih = ih
      go false e o rest later ih = ih

  -- Every host is any host or compiles.
  abbrev pub HostsCompile : List Text → Type 0
  HostsCompile hs =
      All (λ h. (is_any_host h || compiles_to Regexp compile_posix (compile_posix h)) ≡ true) hs

  match_hosts-any :
      (pre : List Regexp) (hs : List Text) (host : Text)
      → HostsCompile hs
      → match_hosts Regexp match_string
          (pre ++ compile_hosts Regexp compile_posix hs)
          host
          (length pre)
          hs
        ≡ matched (any_of (λ h. is_any_host h || matches (compile_posix h) host) hs)
  unfolding match_hosts compile_hosts
  match_hosts-any pre [] host c = refl
  match_hosts-any pre (h ∷ hs) host c =
      go (is_any_host h) (compile_posix h) c.0
        (λ r. next r (match_hosts-any (pre ++ (r ∷ [])) hs host c.1))
    where
      regs : List Regexp
      regs = compile_hosts Regexp compile_posix hs

      others : Outcome Bool
      others = matched (any_of (λ h. is_any_host h || matches (compile_posix h) host) hs)

      next :
          (r : Regexp)
          → match_hosts Regexp match_string
              ((pre ++ (r ∷ [])) ++ regs)
              host
              (length (pre ++ (r ∷ [])))
              hs
            ≡ others
          → match_hosts Regexp match_string (pre ++ (r ∷ regs)) host (length pre + 1) hs ≡ others
      next r ih =
          ap₂ (λ l i. match_hosts Regexp match_string l host i hs)
            (sym (append_assoc pre (r ∷ []) regs)) (sym (length-append pre (r ∷ [])))
          ∙ ih

      chosen :
          (b : Bool) (rest : Outcome Bool)
          → rest ≡ others
          → (if b then matched true else rest)
            ≡ matched (b || any_of (λ h. is_any_host h || matches (compile_posix h) host) hs)
      chosen true rest e = refl
      chosen false rest e = e

      go :
          (any : Bool) (o : Option Regexp)
          → (any || compiles_to Regexp compile_posix o) ≡ true
          → ((r : Regexp)
              → match_hosts Regexp match_string (pre ++ (r ∷ regs)) host (length pre + 1) hs
                ≡ others)
          → host_matches Regexp match_string host
              (get_elem?
                (pre ++ (if any then regs else add_compiled Regexp compile_posix o regs))
                (length pre))
              any
              (match_hosts Regexp match_string
                (pre ++ (if any then regs else add_compiled Regexp compile_posix o regs))
                host
                (length pre + 1)
                hs)
            ≡ matched (
                any
                || matches o host
                || any_of (λ h. is_any_host h || matches (compile_posix h) host) hs)
      go true o ok_host later = refl
      go false none ok_host later = cc
      go false (some r) ok_host later =
          rw (get_elem?-append_length pre regs r) (chosen (match_string r host) _ (later r))

  match_host-allows :
      (hs : List Text) (host : Text)
      → HostsCompile hs
      → match_host Regexp match_string (compile_hosts Regexp compile_posix hs) host hs
        ≡ matched (allows_host hs host)
  match_host-allows [] host c = refl
  match_host-allows (h ∷ hs) host c = match_hosts-any [] (h ∷ hs) host c

  match_route-accepts :
      (req : Request) (route : Route)
      → HostsCompile route.endpoint.host
      → match_route Regexp match_string req route (compiled_of route.endpoint)
        ≡ outcome_of (accepts req route.endpoint)
  unfolding match_route compiled_of accepts
  match_route-accepts req route c = rw (match_host-allows route.endpoint.host req.url_host c) (
      rw (pcres-any route.endpoint.path req.url_path) (
        rw (match_paths-fields route.endpoint.path (components Regexp match_string req.url_path)) (
          go (any_of (λ m. teq m req.method) route.endpoint.method)
            (allows_host route.endpoint.host req.url_host) _ _)))
    where
      paths :
          (b : Bool) (o : Option (Map Text))
          → or_pcre Regexp match_string b (outcome_of o) ≡ outcome_of (or_expression b o)
      paths b (some fields) = refl
      paths true none = refl
      paths false none = refl

      go :
          (m h b : Bool) (o : Option (Map Text))
          → (if not m
              then not_match
              else after_host Regexp match_string
                  (matched h)
                  (or_pcre Regexp match_string b (outcome_of o)))
            ≡ outcome_of (if m && h then or_expression b o else none)
      go false h b o = refl
      go true false b o = refl
      go true true b o = paths b o

  -- The compiled expressions of a route are those of its endpoint.
  abbrev pub IsCompiled : Map (Compiled Regexp) → Text × Route → Type 0
  IsCompiled ceps (n, route) = lookup n ceps ≡ some (compiled_of route.endpoint)

  pub first_route-first_accepting :
      (req : Request) (ceps : Map (Compiled Regexp)) (eps : Map Route)
      → All (IsCompiled ceps) eps
      → All (λ (e : Text × Route). HostsCompile e.1.endpoint.host) eps
      → first_route Regexp match_string req ceps eps ≡ outcome_of (first_accepting req eps)
  unfolding first_route first_accepting
  first_route-first_accepting req ceps [] compiled hosts = refl
  first_route-first_accepting req ceps ((n, route) ∷ eps) compiled hosts = rw compiled.0 (
      rw (match_route-accepts req route hosts.0) (
        go (accepts req route.endpoint)
          (first_route-first_accepting req ceps eps compiled.1 hosts.1)))
    where
      go :
          (o : Option (Option (Map Text)))
          → first_route Regexp match_string req ceps eps ≡ outcome_of (first_accepting req eps)
          → or_next Regexp match_string route
              (outcome_of o)
              (first_route Regexp match_string req ceps eps)
            ≡ outcome_of (or_later route o (first_accepting req eps))
      go none ih = ih
      go (some fields) ih = refl
