-- ===== src/Streams/Walk/Moves.antt =====
-- What one event of `Walk` moves: what is written and what is still to be written stay the same items.
use mathlib.Core.List.{Perm, perm_middle, flat_map}
use mathlib.Core.List.Perm
use mathlib.Core.Option.{some-injective}
use realmicro.Common.{
  ℕ, zero, suc, ◌+◌, ◌≡◌, refl, sym, ap, ◌∙◌, subst, List, [], ◌∷◌, ◌++◌, Option, none, some,
  length, get_elem?, set, arith, Bool-cases, Option-cases, inl, inr, length-append, length-set,
  append_assoc, append-nil,
}
use realmicro.Streams.Cut.{concat}
use realmicro.Streams.Walk.{
  State, Event, start, write, finish, has_room, remove_at, start_next, write_at, finish_at, step,
  run,
}

module _ {ℓ} {B : Type ℓ} where
  concat-append : (xs ys : List (List B)) → concat (xs ++ ys) ≡ concat xs ++ concat ys
  unfolding concat
  concat-append [] ys = refl
  concat-append (x ∷ xs) ys =
      ap (◌++◌ x) (concat-append xs ys) ∙ sym (append_assoc x (concat xs) (concat ys))

  concat-set :
      (running : List (List B)) (i : ℕ) (b : B) (bs : List B)
      → get_elem? running i ≡ some (b ∷ bs)
      → Perm (concat running) (b ∷ concat (set running i bs))
  unfolding concat
  concat-set [] i b bs h = absurd (ground arith)
  concat-set (r ∷ rs) zero b bs h =
      subst (λ l. Perm (r ++ concat rs) (l ++ concat rs)) (some-injective _ _ h) (Perm.refl _)
  concat-set (r ∷ rs) (suc i) b bs h =
      Perm.trans (Perm.append_left r (concat-set rs i b bs h))
        (perm_middle r (concat (set rs i bs)))

  pub concat-remove_at :
      (running : List (List B)) (i : ℕ)
      → get_elem? running i ≡ some []
      → concat (remove_at running i) ≡ concat running
  unfolding concat
  concat-remove_at [] i h = absurd (ground arith)
  concat-remove_at (r ∷ rs) zero h = ap (λ l. l ++ concat rs) (sym (some-injective _ _ h))
  concat-remove_at (r ∷ rs) (suc i) h = ap (◌++◌ r) (concat-remove_at rs i h)

  pub length-remove_at :
      (running : List (List B)) (i : ℕ) (r : List B)
      → get_elem? running i ≡ some r
      → length running ≡ suc (length (remove_at running i))
  length-remove_at [] i r h = absurd (ground arith)
  length-remove_at (r' ∷ rs) zero r h = refl
  length-remove_at (r' ∷ rs) (suc i) r h = ap suc (length-remove_at rs i r h)

  length-concat-set :
      (running : List (List B)) (i : ℕ) (b : B) (bs : List B)
      → get_elem? running i ≡ some (b ∷ bs)
      → length (concat running) ≡ suc (length (concat (set running i bs)))
  unfolding concat
  length-concat-set [] i b bs h = absurd (ground arith)
  length-concat-set (r ∷ rs) zero b bs h = ap (λ l. length (l ++ concat rs)) (some-injective _ _ h)
  length-concat-set (r ∷ rs) (suc i) b bs h = omega (
    arith,
    length-append r (concat rs),
    length-append r (concat (set rs i bs)),
    length-concat-set rs i b bs h,
  )

module _ {ℓ κ} {A : Type ℓ} {B : Type κ} (fn : A → List B) (limit : Option ℕ) where
  -- What is written, and what is still to be written.
  abbrev pub total : State A B → List B
  total s = s.written ++ (concat s.running ++ flat_map fn s.source)

  -- The events that are left.
  abbrev pub events_left : State A B → ℕ
  events_left s =
      length s.source
      + length s.source
      + length (concat s.running ++ flat_map fn s.source)
      + length s.running

  abbrev pub Moves : State A B → State A B → Type κ
  Moves s s' = Perm (total s) (total s') × (events_left s ≡ suc (events_left s'))

  -- The items of a new goroutine, as they stood in the source.
  pub concat-start :
      (s : State A B) (x : A) (rest : List A)
      → s.source ≡ x ∷ rest
      → concat s.running ++ flat_map fn s.source
        ≡ concat (s.running ++ (fn x ∷ [])) ++ flat_map fn rest
  concat-start s x rest e =
      ap (λ l. concat s.running ++ flat_map fn l) e
      ∙ unfold flat_map in
        sym (append_assoc (concat s.running) (fn x) (flat_map fn rest))
        ∙ ap (λ l. (concat s.running ++ l) ++ flat_map fn rest) (sym (append-nil (fn x)))
        ∙ ap (λ l. l ++ flat_map fn rest)
            (sym (unfold concat in concat-append s.running (fn x ∷ [])))

  start_next-Moves :
      (s s' : State A B) (source : List A)
      → s.source ≡ source
      → start_next fn limit s source ≡ some s'
      → Moves s s'
  start_next-Moves s s' [] e h = absurd (ground arith)
  start_next-Moves s s' (x ∷ rest) e h = elim (Bool-cases (has_room limit (length s.running))) [
    | inr full ↦ absurd (ground arith)
    | inl room ↦
        let after : State A B = record s { source = rest; running = s.running ++ (fn x ∷ []) } in
        let is_after : after ≡ s' = some-injective _ _ (rw room at h) in
        let moved = concat-start s x rest e in
        (
          subst (λ t. Perm (total s) (total t)) is_after
              (subst (λ l. Perm (total s) (s.written ++ l)) moved (Perm.refl (total s))),
          subst (λ t. events_left s ≡ suc (events_left t)) is_after
              (omega (arith, ap length moved, ap length e, length-append s.running (fn x ∷ []))),
        )
  ]

  write_at-Moves :
      (s s' : State A B) (i : ℕ) (r : Option (List B))
      → get_elem? s.running i ≡ r
      → write_at fn limit s i r ≡ some s'
      → Moves s s'
  write_at-Moves s s' i none e h = absurd (ground arith)
  write_at-Moves s s' i (some []) e h = absurd (ground arith)
  write_at-Moves s s' i (some (b ∷ bs)) e h =
      let is_after : after b bs ≡ s' = some-injective _ _ h in
      let rest : List B = flat_map fn s.source in
      (
        subst (λ t. Perm (total s) (total t)) is_after
            (Perm.trans
              (Perm.append_left s.written (Perm.append_right rest (concat-set s.running i b bs e)))
              (subst (Perm (s.written ++ (b ∷ (concat (set s.running i bs) ++ rest))))
                (sym (append_assoc s.written (b ∷ []) (concat (set s.running i bs) ++ rest)))
                (Perm.refl _))),
        subst (λ t. events_left s ≡ suc (events_left t)) is_after
            (omega (
              arith,
              length-concat-set s.running i b bs e,
              length-set s.running i bs,
              length-append (concat s.running) rest,
              length-append (concat (set s.running i bs)) rest,
            )),
      )
    where
      after : B → List B → State A B
      after b bs = record s { running = set s.running i bs; written = s.written ++ (b ∷ []) }

  finish_at-Moves :
      (s s' : State A B) (i : ℕ) (r : Option (List B))
      → get_elem? s.running i ≡ r
      → finish_at fn limit s i r ≡ some s'
      → Moves s s'
  finish_at-Moves s s' i none e h = absurd (ground arith)
  finish_at-Moves s s' i (some (b ∷ bs)) e h = absurd (ground arith)
  finish_at-Moves s s' i (some []) e h =
      let is_after : after ≡ s' = some-injective _ _ h in
      let same : concat after.running ≡ concat s.running = concat-remove_at s.running i e in
      (
        subst (λ t. Perm (total s) (total t)) is_after
            (subst (λ l. Perm (total s) (s.written ++ (l ++ flat_map fn s.source))) (sym same)
              (Perm.refl (total s))),
        subst (λ t. events_left s ≡ suc (events_left t)) is_after
            (omega (
              arith,
              ap (λ l. length (l ++ flat_map fn s.source)) same,
              length-remove_at s.running i [] e,
            )),
      )
    where
      after : State A B
      after = record s { running = remove_at s.running i }

  pub step-Moves : (s s' : State A B) (e : Event) → step fn limit s e ≡ some s' → Moves s s'
  unfolding step
  step-Moves s s' start h = start_next-Moves s s' s.source refl h
  step-Moves s s' (write i) h = write_at-Moves s s' i (get_elem? s.running i) refl h
  step-Moves s s' (finish i) h = finish_at-Moves s s' i (get_elem? s.running i) refl h

  pub run-Moves :
      (es : List Event) (s s' : State A B)
      → run fn limit es s ≡ some s'
      → Perm (total s) (total s') × (events_left s ≡ length es + events_left s')
  unfolding run
  run-Moves [] s s' h =
      let same : s ≡ s' = some-injective _ _ h in
      (subst (λ t. Perm (total s) (total t)) same (Perm.refl _), ap events_left same ∙ omega arith)
  run-Moves (e ∷ es) s s' h = elim (Option-cases (step fn limit s e)) [
    | inl stuck ↦ absurd (ground arith)
    | inr (s1, moved) ↦
        let (perm, left) = step-Moves s s1 e moved in
        let (perms, lefts) = run-Moves es s1 s' (rw (moved, run) at h) in
        (Perm.trans perm perms, omega arith)
  ]
