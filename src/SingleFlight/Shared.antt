-- ===== src/SingleFlight/Shared.antt =====
-- The waiters of a call get what its function returned.
use mathlib.Core.Option.{some-injective}
use realmicro.Common.{
  ℕ, ◌≡◌, refl, sym, ap, ◌∙◌, Text, List, [], ◌∷◌, ◌++◌, Bool, true, false, Option, none, some,
  ◌==◌, ==_iff, lookup, length, get_elem?, set, if◌then◌else◌, Option-cases, inl, inr, arith,
  append_assoc, append-nil,
}
use realmicro.SingleFlight.{
  Stage, running, finished, released, Call, FlightGroup, new_single_flight, created, create_call,
  finish_stage, finish_object, finish, release_stage, release_object, release, result, stage_result,
  object_result, Event, create, end, let_go, step, run,
}
use realmicro.SingleFlight.Agreeing.{get-set, get-append_last, get_elem?-length}

module _ {V : Type 0} (c : ℕ) where
  abbrev returned_by : Event V → List (Option V)
  returned_by (create key) = []
  returned_by (end i r) = if c == i then r ∷ [] else []
  returned_by (let_go i) = []

  -- What the runs of the call's function gave, in the order of the steps; `none` is a panic.
  unfoldable pub returned : List (Event V) → List (Option V)
  returned [] = []
  returned (e ∷ es) = returned_by e ++ returned es

  abbrev stage_returned : Stage V → List (Option V)
  stage_returned running = []
  stage_returned (finished r) = r ∷ []
  stage_returned (released r) = r ∷ []

  abbrev object_returned : Option (Call V) → List (Option V)
  object_returned none = []
  object_returned (some o) = stage_returned o.stage

  -- What the function of the call has given, by the state.
  abbrev holds : FlightGroup V → List (Option V)
  holds g = object_returned (get_elem? g.objects c)

  created-holds : (k : Text) (g : FlightGroup V) (o : Option ℕ) → holds (created k g o).0 ≡ holds g
  created-holds k g (some d) = refl
  created-holds k g none =
      ap object_returned (get-append_last g.objects (record { key = k; stage = running }) c)
      ∙ go (c == length g.objects) ((==_iff c (length g.objects)).0)
    where
      go :
          (b : Bool)
          → (b ≡ true → c ≡ length g.objects)
          → object_returned
              (if b then some (record { key = k; stage = running }) else get_elem? g.objects c)
            ≡ holds g
      go false at = refl
      go true at =
          sym (ap object_returned (ap (get_elem? g.objects) (at refl) ∙ get_elem?-length g.objects))

  -- A call that changes from one stage to the next.
  set-holds :
      (i : ℕ) (key : Text) (before after : Stage V) (more : List (Option V)) (g : FlightGroup V)
      → get_elem? g.objects i ≡ some (record { key = key; stage = before })
      → stage_returned after ≡ stage_returned before ++ more
      → object_returned (get_elem? (set g.objects i (record { key = key; stage = after })) c)
        ≡ holds g ++ (if c == i then more else [])
  set-holds i key before after more g here grows =
      ap object_returned (get-set g.objects i (record { key = key; stage = after }) _ c here)
      ∙ go (c == i) ((==_iff c i).0)
    where
      go :
          (b : Bool)
          → (b ≡ true → c ≡ i)
          → object_returned
              (if b then some (record { key = key; stage = after }) else get_elem? g.objects c)
            ≡ holds g ++ (if b then more else [])
      go true at =
          grows
          ∙ sym (ap (λ o. object_returned o ++ more) (ap (get_elem? g.objects) (at refl) ∙ here))
      go false at = sym (append-nil (holds g))

  finish_object-holds :
      (i : ℕ) (x : Option V) (g g' : FlightGroup V) (o : Option (Call V))
      → get_elem? g.objects i ≡ o
      → finish_object i x g o ≡ some g'
      → holds g' ≡ holds g ++ (if c == i then x ∷ [] else [])
  finish_object-holds i x g g' none e q = absurd (ground arith)
  finish_object-holds i x g g' (some o) e q = go o.stage e q
    where
      go :
          (s : Stage V)
          → get_elem? g.objects i ≡ some (record { key = o.key; stage = s })
          → finish_stage i x g o.key s ≡ some g'
          → holds g' ≡ holds g ++ (if c == i then x ∷ [] else [])
      go (finished y) e q = absurd (ground arith)
      go (released y) e q = absurd (ground arith)
      go running e q =
          ap holds (sym (some-injective _ _ q))
          ∙ set-holds i o.key running (finished x) (x ∷ []) g e refl

  release_object-holds :
      (i : ℕ) (g g' : FlightGroup V) (o : Option (Call V))
      → get_elem? g.objects i ≡ o
      → release_object i g o ≡ some g'
      → holds g' ≡ holds g
  release_object-holds i g g' none e q = absurd (ground arith)
  release_object-holds i g g' (some o) e q = go o.stage e q
    where
      unchanged : (b : Bool) → holds g ++ (if b then [] else []) ≡ holds g
      unchanged true = append-nil (holds g)
      unchanged false = append-nil (holds g)

      go :
          (s : Stage V)
          → get_elem? g.objects i ≡ some (record { key = o.key; stage = s })
          → release_stage i g o.key s ≡ some g'
          → holds g' ≡ holds g
      go running e q = absurd (ground arith)
      go (released y) e q = absurd (ground arith)
      go (finished y) e q =
          ap holds (sym (some-injective _ _ q))
          ∙ set-holds i o.key (finished y) (released y) [] g e refl
          ∙ unchanged (c == i)

  step-holds :
      (g g' : FlightGroup V) (e : Event V)
      → step g e ≡ some g'
      → holds g' ≡ holds g ++ returned_by e
  unfolding step create_call finish release
  step-holds g g' (create key) q =
      ap holds (sym (some-injective _ _ q))
      ∙ created-holds key g (lookup key g.calls)
      ∙ sym (append-nil (holds g))
  step-holds g g' (end i x) q = finish_object-holds i x g g' (get_elem? g.objects i) refl q
  step-holds g g' (let_go i) q =
      release_object-holds i g g' (get_elem? g.objects i) refl q ∙ sym (append-nil (holds g))

  run-holds :
      (es : List (Event V)) (g g' : FlightGroup V)
      → run es g ≡ some g'
      → holds g' ≡ holds g ++ returned es
  unfolding run returned
  run-holds [] g g' q = ap holds (sym (some-injective _ _ q)) ∙ sym (append-nil (holds g))
  run-holds (e ∷ es) g g' q = elim (Option-cases (step g e)) [
    | inl s ↦ absurd (ground arith)
    | inr (g1, s) ↦
        run-holds es g1 g' (rw (s, run) at q)
        ∙ ap (λ l. l ++ returned es) (step-holds g g1 e s)
        ∙ append_assoc (holds g) (returned_by e) (returned es)
  ]

  -- After any interleaving of the steps of goroutines, a waiter of a call goes on only when the call's
  -- function has ended, once, and what it gets is what that run returned, or the zero values if it
  -- panicked.
  pub result-returned :
      (es : List (Event V)) (g : FlightGroup V) (x : Option V)
      → run es new_single_flight ≡ some g
      → result c g ≡ some x
      → returned es ≡ x ∷ []
  unfolding result
  result-returned es g x q res =
      sym (run-holds es new_single_flight g q) ∙ got (get_elem? g.objects c) res
    where
      got : (o : Option (Call V)) → object_result o ≡ some x → object_returned o ≡ x ∷ []
      got none h = absurd (ground arith)
      got (some o) h = at o.stage h
        where
          at : (s : Stage V) → stage_result s ≡ some x → stage_returned s ≡ x ∷ []
          at running h = absurd (ground arith)
          at (finished r) h = absurd (ground arith)
          at (released r) h = ap (λ y. y ∷ []) (some-injective _ _ h)
