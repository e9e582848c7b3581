-- ===== src/Api/Endpoints/Checked.antt =====
-- What `Validate` lets through.
use realmicro.Common.{
  ◌≡◌, ◌≢◌, ◌↔◌, refl, Text, List, [], ◌∷◌, Bool, true, false, not, ◌&&◌, ◌||◌, Option, none, some,
  Map, All, split, codes, if◌then◌else◌, Bool-cases, inl, inr,
}
use realmicro.Api.Endpoints.{
  Endpoint, strip, is_empty, slice_loop, slice, value, decode, Verdict, valid, endpoint_is_nil,
  name_required, bad_regexp, invalid_path, invalid_handler, panic, starts, ends, check_paths,
  validate,
}

-- The tests of one path, by whether it begins with '^', ends in '$' and compiles.
step : Bool → Bool → Bool → Verdict → Verdict
step s e c rest =
    if s && e
    then if c then rest else bad_regexp
    else if s && not e
    then invalid_path
    else if not s && e
    then invalid_path
    else rest

step-valid :
    (s e c : Bool) (rest : Verdict)
    → (step s e c rest ≡ valid) ↔ ((s ≡ e) × ((not s || c) ≡ true) × (rest ≡ valid))
unfolding step
step-valid true true true rest = (λ h. (refl, refl, h), λ h. h.2)
step-valid true true false rest = (λ h. cc, λ h. cc)
step-valid true false c rest = (λ h. cc, λ h. cc)
step-valid false true c rest = (λ h. cc, λ h. cc)
step-valid false false c rest = (λ h. (refl, refl, h), λ h. h.2)

step-panic : (s e c : Bool) (rest : Verdict) → step s e c rest ≡ panic → rest ≡ panic
unfolding step
step-panic true true true rest h = h
step-panic true true false rest h = cc
step-panic true false c rest h = cc
step-panic false true c rest h = cc
step-panic false false c rest h = h

module _ (compiles : Text → Bool) where
  -- A path that is not empty, begins with '^' exactly if it ends in '$', and compiles if it does.
  abbrev pub IsRoutable : Text → Type 0
  IsRoutable p = (p ≢ []) × (starts p ≡ ends p) × ((not (starts p) || compiles p) ≡ true)

  check_paths-valid :
      (ps : List Text) (after : Verdict)
      → (check_paths compiles ps after ≡ valid) ↔ (All IsRoutable ps × (after ≡ valid))
  unfolding check_paths
  check_paths-valid [] after = (λ h. (tt, h), λ h. h.1)
  check_paths-valid ([] ∷ ps) after = (λ h. cc, λ h. absurd (h.0.0.0 refl))
  check_paths-valid ((c ∷ p) ∷ ps) after = (
    λ h.
        let (same, compiled, rest) =
          (step-valid (starts (c ∷ p)) (ends (c ∷ p)) (compiles (c ∷ p))
              (check_paths compiles ps after)).0
            (unfold step in h) in
        let (routable, last) = (check_paths-valid ps after).0 rest in
        ((((λ e. cc), same, compiled), routable), last),
    λ h. passes h.0.0 ((check_paths-valid ps after).1 (h.0.1, h.1)),
  )
    where
      passes :
          IsRoutable (c ∷ p)
          → check_paths compiles ps after ≡ valid
          → check_paths compiles ((c ∷ p) ∷ ps) after ≡ valid
      passes r rest =
          unfold step in
          (step-valid (starts (c ∷ p)) (ends (c ∷ p)) (compiles (c ∷ p))
              (check_paths compiles ps after)).1
            (r.1, r.2, rest)

  -- `Validate` returns nil exactly for an endpoint, not nil, that has a name and a handler and whose
  -- paths are not empty, begin with '^' exactly if they end in '$', and then compile.
  pub validate-valid :
      (e : Endpoint)
      → (validate compiles none ≡ endpoint_is_nil)
        × ((validate compiles (some e) ≡ valid)
            ↔ ((e.name ≢ []) × (e.handler ≢ []) × All IsRoutable e.path))
  unfolding validate
  validate-valid e = (refl, named e.name)
    where
      handled :
          (handler : Text)
          → ((if is_empty handler then invalid_handler else valid) ≡ valid) ↔ (handler ≢ [])
      handled [] = (λ h. cc, λ h. absurd (h refl))
      handled (c ∷ t) = (λ h e. cc, λ h. refl)

      paths :
          (check_paths compiles e.path (if is_empty e.handler then invalid_handler else valid)
            ≡ valid)
          ↔ ((e.handler ≢ []) × All IsRoutable e.path)
      paths =
          let iff =
            check_paths-valid e.path (if is_empty e.handler then invalid_handler else valid) in
          (
            λ h. ((handled e.handler).0 (iff.0 h).1, (iff.0 h).0),
            λ h. iff.1 (h.1, (handled e.handler).1 h.0),
          )

      named :
          (name : Text)
          → ((if is_empty name
                then name_required
                else check_paths compiles e.path
                    (if is_empty e.handler then invalid_handler else valid))
              ≡ valid)
            ↔ ((name ≢ []) × (e.handler ≢ []) × All IsRoutable e.path)
      named [] = (λ h. cc, λ h. absurd (h.0 refl))
      named (c ∷ t) = (λ h. (λ e. cc, (paths.0 h).0, (paths.0 h).1), λ h. paths.1 (h.1, h.2))

  check_paths-ne_panic :
      (ps : List Text) (after : Verdict)
      → All (λ p. p ≢ []) ps
      → after ≢ panic
      → check_paths compiles ps after ≢ panic
  unfolding check_paths
  check_paths-ne_panic [] after h k e = k e
  check_paths-ne_panic ([] ∷ ps) after h k e = h.0 refl
  check_paths-ne_panic ((c ∷ p) ∷ ps) after h k e = check_paths-ne_panic ps after h.1 k (
      step-panic (starts (c ∷ p)) (ends (c ∷ p)) (compiles (c ∷ p)) (check_paths compiles ps after)
        (unfold step in e))

  is_empty-ne : (t : Text) → is_empty t ≡ false → t ≢ []
  is_empty-ne [] h e = cc
  is_empty-ne (c ∷ t) h e = cc

  slice_loop-ne_nil : (ps : List Text) → All (λ p. p ≢ []) (slice_loop ps)
  unfolding slice_loop
  slice_loop-ne_nil [] = tt
  slice_loop-ne_nil (p ∷ ps) = elim (Bool-cases (is_empty (strip p))) [
    | inl e ↦ rw e (slice_loop-ne_nil ps)
    | inr e ↦ rw e (is_empty-ne (strip p) e, slice_loop-ne_nil ps)
  ]

  -- `Validate` of an endpoint that `Decode` made does not panic: it reads the first byte of each path,
  -- and `Decode` gives no empty one.
  pub validate-decode : (m : Option (Map Text)) → validate compiles (decode m) ≢ panic
  unfolding validate decode slice
  validate-decode none e = cc
  validate-decode (some m) e = elim (Bool-cases (is_empty (value (codes "endpoint") m))) [
    | inl nameless ↦ absurd (named (rw nameless at e))
    | inr has_name ↦
        check_paths-ne_panic (slice (value (codes "path") m)) _
          (slice_loop-ne_nil (split b',' (value (codes "path") m)))
          (handler_ne (value (codes "handler") m)) (rw has_name at e)
  ]
    where
      named : name_required ≢ panic
      named e = cc

      handler_ne : (h : Text) → (if is_empty h then invalid_handler else valid) ≢ panic
      handler_ne [] e = cc
      handler_ne (c ∷ t) e = cc
