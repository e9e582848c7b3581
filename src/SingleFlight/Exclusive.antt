-- ===== src/SingleFlight/Exclusive.antt =====
-- At most one call is under way for a key.
use mathlib.Core.Option.{some-injective}
use realmicro.Common.{
  ℕ, ◌≡◌, ◌↔◌, refl, ap, subst, Text, List, [], ◌∷◌, Bool, true, false, Option, none, some, lookup,
  get_elem?, Option-cases, inl, inr, arith,
}
use realmicro.SingleFlight.{
  Stage, running, finished, released, Call, FlightGroup, new_single_flight, created, create_call,
  finish_stage, finish_object, finish, release_stage, release_object, release, Event, create, end,
  let_go, step, run,
}
use realmicro.SingleFlight.Agreeing.{
  active, Agrees, create_call-Agrees, finish-Agrees, release-Agrees,
}

new-Agrees : (V : Type 0) → Agrees (new_single_flight {V = V})
new-Agrees V k c = unfold active lookup in (λ h. cc, λ h. cc)

module _ {V : Type 0} where
  created-Agrees :
      (key : Text) (g : FlightGroup V) (o : Option ℕ)
      → lookup key g.calls ≡ o
      → Agrees g
      → Agrees (created key g o).0
  created-Agrees key g none e ag = create_call-Agrees key g e ag
  created-Agrees key g (some c) e ag = ag

  finish_object-Agrees :
      (c : ℕ) (r : Option V) (g g' : FlightGroup V) (o : Option (Call V))
      → get_elem? g.objects c ≡ o
      → finish_object c r g o ≡ some g'
      → Agrees g
      → Agrees g'
  finish_object-Agrees c r g g' none e h ag = absurd (ground arith)
  finish_object-Agrees c r g g' (some o) e h ag = go o.stage e h
    where
      go :
          (s : Stage V)
          → get_elem? g.objects c ≡ some (record { key = o.key; stage = s })
          → finish_stage c r g o.key s ≡ some g'
          → Agrees g'
      go running e h = subst Agrees (some-injective _ _ h) (finish-Agrees c o.key r g e ag)
      go (finished x) e h = absurd (ground arith)
      go (released x) e h = absurd (ground arith)

  release_object-Agrees :
      (c : ℕ) (g g' : FlightGroup V) (o : Option (Call V))
      → get_elem? g.objects c ≡ o
      → release_object c g o ≡ some g'
      → Agrees g
      → Agrees g'
  release_object-Agrees c g g' none e h ag = absurd (ground arith)
  release_object-Agrees c g g' (some o) e h ag = go o.stage e h
    where
      go :
          (s : Stage V)
          → get_elem? g.objects c ≡ some (record { key = o.key; stage = s })
          → release_stage c g o.key s ≡ some g'
          → Agrees g'
      go running e h = absurd (ground arith)
      go (finished x) e h = subst Agrees (some-injective _ _ h) (release-Agrees c o.key x g e ag)
      go (released x) e h = absurd (ground arith)

  step-Agrees : (g g' : FlightGroup V) (e : Event V) → step g e ≡ some g' → Agrees g → Agrees g'
  unfolding step create_call finish release
  step-Agrees g g' (create key) h ag =
      subst Agrees (some-injective _ _ h) (created-Agrees key g (lookup key g.calls) refl ag)
  step-Agrees g g' (end c r) h ag = finish_object-Agrees c r g g' (get_elem? g.objects c) refl h ag
  step-Agrees g g' (let_go c) h ag = release_object-Agrees c g g' (get_elem? g.objects c) refl h ag

  run-Agrees :
      (es : List (Event V)) (g g' : FlightGroup V) → run es g ≡ some g' → Agrees g → Agrees g'
  unfolding run
  run-Agrees [] g g' h ag = subst Agrees (some-injective _ _ h) ag
  run-Agrees (e ∷ es) g g' h ag = elim (Option-cases (step g e)) [
    | inl q ↦ absurd (ground arith)
    | inr (g1, q) ↦ run-Agrees es g1 g' (rw (q, run) at h) (step-Agrees g g1 e q ag)
  ]

  created-joins :
      (k : Text) (g : FlightGroup V) (c : ℕ) (o : Option ℕ)
      → (created k g o ≡ (g, c, true)) ↔ (o ≡ some c)
  created-joins k g c none =
      (λ h. absurd (joined (ap (λ (p : FlightGroup V × ℕ × Bool). p.2) h)), λ h. cc)
    where
      joined : false ≡ true → ⊥
      joined e = cc
  created-joins k g c (some d) = (
    λ h. ap (λ (p : FlightGroup V × ℕ × Bool). some p.1) h,
    λ h. ap (λ x. (g, x, true)) (some-injective _ _ h),
  )

  -- After any interleaving of the steps of goroutines, `createCall` for a key makes its caller wait for a
  -- call exactly if that is a call for the key which is under way, so that no two are under way for
  -- one key.
  pub create_call-active :
      (es : List (Event V)) (g : FlightGroup V) (k : Text) (c : ℕ)
      → run es new_single_flight ≡ some g
      → (create_call k g ≡ (g, c, true)) ↔ (active g k c ≡ true)
  create_call-active es g k c h =
      let ag : Agrees g = run-Agrees es new_single_flight g h (new-Agrees V) in
      let joins : (create_call k g ≡ (g, c, true)) ↔ (lookup k g.calls ≡ some c) =
        unfold create_call in created-joins k g c (lookup k g.calls) in
      (λ q. (ag k c).1 (joins.0 q), λ q. joins.1 ((ag k c).0 q))
