-- ===== src/SingleFlight/Agreeing.antt =====
-- The calls under way are those on the map: each step keeps it so.
use mathlib.Core.Option.{some-injective}
use realmicro.Common.{
  ℕ, zero, suc, ◌≡◌, ◌≢◌, ◌↔◌, refl, sym, ap, ◌∙◌, subst, Text, List, [], ◌∷◌, ◌++◌, Bool, true,
  false, ◌&&◌, Option, none, some, ◌==◌, ==_iff, teq, teq_iff, teq_refl, lookup, delete,
  lookup-insert, lookup-delete, length, get_elem?, set, if◌then◌else◌, arith,
}
use realmicro.SingleFlight.{Stage, running, finished, released, Call, FlightGroup, created}

module _ {V : Type 0} where
  abbrev pub is_under_way : Stage V → Bool
  is_under_way running = true
  is_under_way (finished r) = true
  is_under_way (released r) = false

  abbrev pub active_object : Text → Option (Call V) → Bool
  active_object k none = false
  active_object k (some o) = teq o.key k && is_under_way o.stage

  -- The call at the place is one for the key, and not yet released.
  unfoldable pub active : FlightGroup V → Text → ℕ → Bool
  unfolding teq
  active g k c = active_object k (get_elem? g.objects c)

  -- The calls under way are those on the map.
  abbrev pub Agrees : FlightGroup V → Type 0
  Agrees g = (k : Text) (c : ℕ) → (active g k c ≡ true) ↔ (lookup k g.calls ≡ some c)

  pub get-append_last :
      (objects : List (Call V)) (o : Call V) (c : ℕ)
      → get_elem? (objects ++ (o ∷ [])) c
        ≡ (if c == length objects then some o else get_elem? objects c)
  get-append_last [] o zero = refl
  get-append_last [] o (suc c) = ground arith
  get-append_last (x ∷ objects) o zero = ground arith
  get-append_last (x ∷ objects) o (suc c) = ground (arith, get-append_last objects o c)

  pub get_elem?-length : (objects : List (Call V)) → get_elem? objects (length objects) ≡ none
  get_elem?-length [] = refl
  get_elem?-length (x ∷ objects) = get_elem?-length objects

  pub get-set :
      (objects : List (Call V)) (i : ℕ) (o old : Call V) (c : ℕ)
      → get_elem? objects i ≡ some old
      → get_elem? (set objects i o) c ≡ (if c == i then some o else get_elem? objects c)
  get-set [] i o old c h = absurd (ground arith)
  get-set (x ∷ objects) zero o old zero h = refl
  get-set (x ∷ objects) zero o old (suc c) h = ground arith
  get-set (x ∷ objects) (suc i) o old zero h = ground arith
  get-set (x ∷ objects) (suc i) o old (suc c) h = ground (arith, get-set objects i o old c h)

  pub create_call-Agrees :
      (key : Text) (g : FlightGroup V)
      → lookup key g.calls ≡ none
      → Agrees g
      → Agrees (created key g none).0
  unfolding active
  create_call-Agrees key g absent ag k c =
      rw (get-append_last g.objects (record { key = key; stage = running }) c) (
        rw (lookup-insert key k (length g.objects) g.calls) (
          go (c == length g.objects) (teq key k) ((==_iff c (length g.objects)).0)
            ((==_iff c (length g.objects)).1) refl))
    where
      new : Call V
      new = record { key = key; stage = running }

      unused : c ≡ length g.objects → lookup k g.calls ≢ some c
      unused e h =
          let here : active_object k (get_elem? g.objects c) ≡ true = (ag k c).1 h in
          let nothing : get_elem? g.objects c ≡ none =
            ap (get_elem? g.objects) e ∙ get_elem?-length g.objects in
          absurd (ground arith)

      idle : key ≡ k → active_object k (get_elem? g.objects c) ≡ true → ⊥
      idle e h =
          let found : lookup k g.calls ≡ some c = (ag k c).0 h in
          let missing : lookup k g.calls ≡ none = ap (λ x. lookup x g.calls) (sym e) ∙ absent in
          ground arith

      go :
          (here same : Bool)
          → (here ≡ true → c ≡ length g.objects)
          → (c ≡ length g.objects → here ≡ true)
          → teq key k ≡ same
          → (active_object k (if here then some new else get_elem? g.objects c) ≡ true)
            ↔ ((if same then some (length g.objects) else lookup k g.calls) ≡ some c)
      go true true at only q = (λ h. ap some (sym (at refl)), λ h. rw q refl)
      go true false at only q = (λ h. absurd (ground arith), λ h. absurd (unused (at refl) h))
      go false true at only q = (
        λ h. absurd (idle ((teq_iff key k).0 q) h),
        λ h. absurd (ground (arith, only (sym (some-injective _ _ h)))),
      )
      go false false at only q = ag k c

  -- A call that stays under way.
  pub finish-Agrees :
      (i : ℕ) (key : Text) (r : Option V) (g : FlightGroup V)
      → get_elem? g.objects i ≡ some (record { key = key; stage = running })
      → Agrees g
      → Agrees (record g { objects = set g.objects i (record { key = key; stage = finished r }) })
  unfolding active
  finish-Agrees i key r g here ag k c =
      rw (get-set g.objects i (record { key = key; stage = finished r }) _ c here)
        (go (c == i) ((==_iff c i).0))
    where
      go :
          (same : Bool)
          → (same ≡ true → c ≡ i)
          → (active_object k (
                if same
                then some (record { key = key; stage = finished r })
                else get_elem? g.objects c)
              ≡ true)
            ↔ (lookup k g.calls ≡ some c)
      go true at =
          let was : get_elem? g.objects c ≡ some (record { key = key; stage = running }) =
            ap (get_elem? g.objects) (at refl) ∙ here in
          let before : (active_object k (some (record { key = key; stage = running })) ≡ true)
              ↔ (lookup k g.calls ≡ some c) =
            subst (λ o. (active_object k o ≡ true) ↔ (lookup k g.calls ≡ some c)) was (ag k c) in
          before
      go false at = ag k c

  pub release-Agrees :
      (i : ℕ) (key : Text) (r : Option V) (g : FlightGroup V)
      → get_elem? g.objects i ≡ some (record { key = key; stage = finished r })
      → Agrees g
      → Agrees (record {
        calls = delete key g.calls;
        objects = set g.objects i (record { key = key; stage = released r });
      })
  unfolding active
  release-Agrees i key r g here ag k c =
      rw (get-set g.objects i (record { key = key; stage = released r }) _ c here) (
        rw (lookup-delete key k g.calls)
          (go (c == i) (teq key k) ((==_iff c i).0) ((==_iff c i).1) refl))
    where
      -- The call that is released is the one on the map.
      on_map : lookup key g.calls ≡ some i
      on_map = (ag key i).0 (ap (active_object key) here ∙ ap (λ b. b && true) (teq_refl key))

      go :
          (at same : Bool)
          → (at ≡ true → c ≡ i)
          → (c ≡ i → at ≡ true)
          → teq key k ≡ same
          → (active_object k (
                if at
                then some (record { key = key; stage = released r })
                else get_elem? g.objects c)
              ≡ true)
            ↔ ((if same then none else lookup k g.calls) ≡ some c)
      go true true is only q = (λ h. absurd (ground arith), λ h. cc)
      go true false is only q = (
        λ h. absurd (ground arith),
        λ h.
            let was : get_elem? g.objects c ≡ some (record { key = key; stage = finished r }) =
              ap (get_elem? g.objects) (is refl) ∙ here in
            let under_way : active_object k (get_elem? g.objects c) ≡ true = (ag k c).1 h in
            absurd (ground arith),
      )
      go false true is only q = (
        λ h.
            let found : lookup key g.calls ≡ some c =
              ap (λ x. lookup x g.calls) ((teq_iff key k).0 q) ∙ (ag k c).0 h in
            absurd (ground (arith, only (some-injective _ _ (sym found ∙ on_map)))),
        λ h. cc,
      )
      go false false is only q = ag k c
