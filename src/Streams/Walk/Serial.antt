-- ===== src/Streams/Walk/Serial.antt =====
-- `Walk` with one worker runs the goroutines one after another.
use mathlib.Core.List.{flat_map}
use mathlib.Core.Option.{some-injective}
use realmicro.Common.{
  ℕ, zero, suc, ◌≤◌, ◌≡◌, refl, sym, ap, ap₂, ◌∙◌, subst, List, [], ◌∷◌, ◌++◌, true, Option, none,
  some, ltb, length, get_elem?, set, arith, append_assoc, append-nil, Bool-cases, Option-cases, inl,
  inr, length-append, length-set,
}
use realmicro.Streams.Cut.{concat}
use realmicro.Streams.Walk.{
  State, Event, start, write, finish, has_room, remove_at, start_next, write_at, finish_at, step,
  run, started,
}
use realmicro.Streams.Walk.Moves.{total, concat-start, concat-remove_at, length-remove_at}
use realmicro.Streams.Walk.Complete.{IsClosed}

concat-set_only {ℓ} :
    {B : Type ℓ} (running : List (List B)) (i : ℕ) (b : B) (bs : List B)
    → length running ≤ 1
    → get_elem? running i ≡ some (b ∷ bs)
    → concat running ≡ b ∷ concat (set running i bs)
unfolding concat
concat-set_only [] i b bs l h = absurd (ground arith)
concat-set_only (r ∷ []) zero b bs l h = ap (λ r. r ++ []) (some-injective _ _ h)
concat-set_only (r ∷ []) (suc i) b bs l h = absurd (ground arith)
concat-set_only (r ∷ q ∷ rs) i b bs l h = absurd (omega arith)

module _ {ℓ κ} {A : Type ℓ} {B : Type κ} (fn : A → List B) (limit : Option ℕ)
    (one : limit ≡ some 1) where
  abbrev Keeps : State A B → State A B → Type κ
  Keeps s s' = (length s'.running ≤ 1) × (total fn limit s ≡ total fn limit s')

  start_next-Keeps :
      (s s' : State A B) (source : List A)
      → s.source ≡ source
      → start_next fn limit s source ≡ some s'
      → Keeps s s'
  start_next-Keeps s s' [] e h = absurd (ground arith)
  start_next-Keeps s s' (x ∷ rest) e h = elim (Bool-cases (has_room limit (length s.running))) [
    | inr full ↦ absurd (ground arith)
    | inl room ↦
        let after : State A B = record s { source = rest; running = s.running ++ (fn x ∷ []) } in
        let is_after : after ≡ s' = some-injective _ _ (rw room at h) in
        let idle : ltb (length s.running) 1 ≡ true =
          ap (λ l. has_room l (length s.running)) (sym one) ∙ room in
        (
          subst (λ (t : State A B). length t.running ≤ 1) is_after
              (ground (arith, length-append s.running (fn x ∷ []))),
          ap (λ l. s.written ++ l) (concat-start fn limit s x rest e)
              ∙ ap (total fn limit) is_after,
        )
  ]

  write_at-Keeps :
      (s s' : State A B) (i : ℕ) (r : Option (List B))
      → length s.running ≤ 1
      → get_elem? s.running i ≡ r
      → write_at fn limit s i r ≡ some s'
      → Keeps s s'
  write_at-Keeps s s' i none l e h = absurd (ground arith)
  write_at-Keeps s s' i (some []) l e h = absurd (ground arith)
  write_at-Keeps s s' i (some (b ∷ bs)) l e h =
      let is_after : after b bs ≡ s' = some-injective _ _ h in
      (
        subst (λ (t : State A B). length t.running ≤ 1) is_after
            (omega (arith, length-set s.running i bs)),
        ap (λ l. s.written ++ (l ++ flat_map fn s.source)) (concat-set_only s.running i b bs l e)
            ∙ sym (
                append_assoc s.written (b ∷ [])
                  (concat (set s.running i bs) ++ flat_map fn s.source))
            ∙ ap (total fn limit) is_after,
      )
    where
      after : B → List B → State A B
      after b bs = record s { running = set s.running i bs; written = s.written ++ (b ∷ []) }

  finish_at-Keeps :
      (s s' : State A B) (i : ℕ) (r : Option (List B))
      → length s.running ≤ 1
      → get_elem? s.running i ≡ r
      → finish_at fn limit s i r ≡ some s'
      → Keeps s s'
  finish_at-Keeps s s' i none l e h = absurd (ground arith)
  finish_at-Keeps s s' i (some (b ∷ bs)) l e h = absurd (ground arith)
  finish_at-Keeps s s' i (some []) l e h =
      let is_after : after ≡ s' = some-injective _ _ h in
      (
        subst (λ (t : State A B). length t.running ≤ 1) is_after
            (omega (arith, length-remove_at s.running i [] e)),
        ap (λ l. s.written ++ (l ++ flat_map fn s.source)) (sym (concat-remove_at s.running i e))
            ∙ ap (total fn limit) is_after,
      )
    where
      after : State A B
      after = record s { running = remove_at s.running i }

  step-Keeps :
      (s s' : State A B) (e : Event)
      → length s.running ≤ 1
      → step fn limit s e ≡ some s'
      → Keeps s s'
  unfolding step
  step-Keeps s s' start l h = start_next-Keeps s s' s.source refl h
  step-Keeps s s' (write i) l h = write_at-Keeps s s' i (get_elem? s.running i) l refl h
  step-Keeps s s' (finish i) l h = finish_at-Keeps s s' i (get_elem? s.running i) l refl h

  run-Keeps :
      (es : List Event) (s s' : State A B)
      → length s.running ≤ 1
      → run fn limit es s ≡ some s'
      → total fn limit s ≡ total fn limit s'
  unfolding run
  run-Keeps [] s s' l h = ap (total fn limit) (some-injective _ _ h)
  run-Keeps (e ∷ es) s s' l h = elim (Option-cases (step fn limit s e)) [
    | inl stuck ↦ absurd (ground arith)
    | inr (s1, moved) ↦
        let (l1, same) = step-Keeps s s1 e l moved in
        same ∙ run-Keeps es s1 s' l1 (rw (moved, run) at h)
  ]

  -- With one worker the pipe of a `Walk` has delivered, when it is closed, what the function writes
  -- for the items in the order of the items, whatever the schedule.
  pub run-IsClosed_serial :
      (source : List A) (es : List Event) (s : State A B)
      → run fn limit es (started source) ≡ some s
      → IsClosed fn limit s
      → s.written ≡ flat_map fn source
  unfolding concat flat_map
  run-IsClosed_serial source es s h closed = sym (
      run-Keeps es (started source) s (omega arith) h
      ∙ ap₂ (λ r l. s.written ++ (concat r ++ flat_map fn l)) closed.1 closed.0
      ∙ append-nil s.written)
