-- ===== src/Streams/Walk/Complete.antt =====
-- Every schedule of `Walk` ends, and has then written what the caller's function writes for the items.
use mathlib.Core.List.{Perm, flat_map}
use mathlib.Core.List.Perm
use realmicro.Common.{
  ℕ, zero, suc, ◌+◌, ◌≤◌, ◌<◌, ◌≡◌, refl, ap, ap₂, ◌∙◌, subst, List, [], ◌∷◌, ◌++◌, Bool, true,
  Option, none, some, lt→ltb, length, get_elem?, arith, append-nil, map, select, Bool-cases, inl,
  inr, pos, negsuc,
}
use realmicro.Streams.Cut.{concat}
use realmicro.Streams.Walk.{
  State, Event, start, write, finish, has_room, start_next, write_at, finish_at, step, run, started,
  Setting, unlimited, with_workers, apply, build_loop, build_options, new_options, limit_of,
  capacity, RxOptions, map_fn, filter_fn,
}
use realmicro.Streams.Walk.Moves.{total, events_left, step-Moves, run-Moves}

abbrev pub HasWorker : Option ℕ → Type 0
HasWorker none = Unit
HasWorker (some workers) = 0 < workers

has_room_first : (l : Option ℕ) → HasWorker l → has_room l 0 ≡ true
has_room_first none h = refl
has_room_first (some workers) h = lt→ltb 0 workers h

module _ {ℓ κ} {A : Type ℓ} {B : Type κ} (fn : A → List B) (limit : Option ℕ) where
  -- The loop is through its source and its goroutines have ended: the pipe is closed.
  abbrev pub IsClosed : State A B → Type (ℓ ⊔ κ)
  IsClosed s = (s.source ≡ []) × (s.running ≡ [])

  -- When the pipe of a `Walk` is closed, whatever the schedule and the number of workers, it has
  -- delivered exactly what the function writes for all the items, in some order.
  pub run-IsClosed :
      (source : List A) (es : List Event) (s : State A B)
      → run fn limit es (started source) ≡ some s
      → IsClosed s
      → Perm s.written (flat_map fn source)
  unfolding concat flat_map
  run-IsClosed source es s h closed =
      let (perm, left) = run-Moves fn limit es (started source) s h in
      let all : total fn limit s ≡ s.written =
        ap₂ (λ r l. s.written ++ (concat r ++ flat_map fn l)) closed.1 closed.0
        ∙ append-nil s.written in
      Perm.symm (subst (Perm (flat_map fn source)) all perm)

  -- What can happen next.
  data Next (s : State A B) : Type (ℓ ⊔ κ) where
    closed : IsClosed s → Next s
    moves : (e : Event) (s' : State A B) → step fn limit s e ≡ some s' → Next s

  next_first : (s : State A B) (r : List B) → get_elem? s.running 0 ≡ some r → Next s
  unfolding step
  next_first s [] e = moves (finish 0) _ (ap (finish_at fn limit s 0) e)
  next_first s (b ∷ bs) e = moves (write 0) _ (ap (write_at fn limit s 0) e)

  next_source :
      (s : State A B) (source : List A)
      → HasWorker limit
      → s.running ≡ []
      → s.source ≡ source
      → Next s
  unfolding step
  next_source s [] w none_running e = closed (e, none_running)
  next_source s (x ∷ rest) w none_running e =
      let room : has_room limit (length s.running) ≡ true =
        ap (λ (r : List (List B)). has_room limit (length r)) none_running
        ∙ has_room_first limit w in
      moves start (record s { source = rest; running = s.running ++ (fn x ∷ []) })
        (ap (start_next fn limit s) e ∙ rw room refl)

  next : (s : State A B) (running : List (List B)) → HasWorker limit → s.running ≡ running → Next s
  next s [] w e = next_source s s.source w e refl
  next s (r ∷ rs) w e = next_first s r (ap (λ l. get_elem? l 0) e)

  finishes :
      (n : ℕ) (s : State A B)
      → HasWorker limit
      → events_left fn limit s < n
      → (es : List Event) × (s' : State A B) × (run fn limit es s ≡ some s') × IsClosed s'
  unfolding run
  finishes zero s w h = absurd (omega arith)
  finishes (suc n) s w h = go (next s s.running w refl) (λ s' k. finishes n s' w k)
    where
      go :
          Next s
          → ((s' : State A B)
              → events_left fn limit s' < n
              → (es : List Event) × (t : State A B) × (run fn limit es s' ≡ some t) × IsClosed t)
          → (es : List Event) × (t : State A B) × (run fn limit es s ≡ some t) × IsClosed t
      go (closed c) ih = ([], s, refl, c)
      go (moves e s' moved) ih =
          let (perm, left) = step-Moves fn limit s s' e moved in
          let (es, t, rest, c) = ih s' (omega arith) in (e ∷ es, t, rw (moved, run) rest, c)

  -- With at least one worker no schedule of a `Walk` gets stuck and none goes on for ever: a schedule
  -- from the beginning has at most as many events as there are items twice over and writes, and from
  -- each state that it reaches there are events that close the pipe.
  pub run_total :
      (source : List A) (es : List Event) (s : State A B)
      → HasWorker limit
      → run fn limit es (started source) ≡ some s
      → (length es ≤ length source + length source + length (flat_map fn source))
        × ((more : List Event) × (s' : State A B) × (run fn limit more s ≡ some s') × IsClosed s')
  unfolding concat
  run_total source es s w h =
      let (perm, left) = run-Moves fn limit es (started source) s h in
      (omega arith, finishes (suc (events_left fn limit s)) s w (omega arith))

module _ {ℓ} {A : Type ℓ} where
  flat_map-map_fn {κ} : {B : Type κ} (f : A → B) (s : List A) → flat_map (map_fn f) s ≡ map f s
  unfolding flat_map map_fn
  flat_map-map_fn f [] = refl
  flat_map-map_fn f (x ∷ s) = ap (◌∷◌ (f x)) (flat_map-map_fn f s)

  flat_map-filter_fn : (p : A → Bool) (s : List A) → flat_map (filter_fn p) s ≡ select p s
  unfolding flat_map filter_fn select
  flat_map-filter_fn p [] = refl
  flat_map-filter_fn p (x ∷ s) = elim (Bool-cases (p x)) [
    | inl e ↦ rw e (ap (◌∷◌ x) (flat_map-filter_fn p s))
    | inr e ↦ rw e (flat_map-filter_fn p s)
  ]

  -- What `Map` has delivered when its pipe is closed.
  pub run-map_fn {κ} :
      {B : Type κ} (f : A → B) (limit : Option ℕ) (source : List A) (es : List Event)
      (s : State A B)
      → run (map_fn f) limit es (started source) ≡ some s
      → IsClosed (map_fn f) limit s
      → Perm s.written (map f source)
  run-map_fn f limit source es s h c =
      subst (Perm s.written) (flat_map-map_fn f source)
        (run-IsClosed (map_fn f) limit source es s h c)

  -- What `Filter` has delivered when its pipe is closed.
  pub run-filter_fn :
      (p : A → Bool) (limit : Option ℕ) (source : List A) (es : List Event) (s : State A A)
      → run (filter_fn p) limit es (started source) ≡ some s
      → IsClosed (filter_fn p) limit s
      → Perm s.written (select p source)
  run-filter_fn p limit source es s h c =
      subst (Perm s.written) (flat_map-filter_fn p source)
        (run-IsClosed (filter_fn p) limit source es s h c)

-- The options have a worker.
abbrev Works : RxOptions → Type 0
Works o = 0 < capacity o.workers

apply-Works : (o : RxOptions) (s : Setting) → Works o → Works (apply o s)
unfolding apply
apply-Works o unlimited h = h
apply-Works o (with_workers (pos zero)) h = omega arith
apply-Works o (with_workers (pos (suc n))) h = ground arith
apply-Works o (with_workers (negsuc n)) h = omega arith

build_loop-Works : (o : RxOptions) (ss : List Setting) → Works o → Works (build_loop o ss)
unfolding build_loop
build_loop-Works o [] h = h
build_loop-Works o (s ∷ ss) h = build_loop-Works (apply o s) ss (apply-Works o s h)

-- Whatever options are given, numbers of workers below 1 included, at least one goroutine may run.
pub build_options-HasWorker : (ss : List Setting) → HasWorker (limit_of (build_options ss))
unfolding build_options new_options limit_of
build_options-HasWorker ss = elim (Bool-cases (build_loop new_options ss).unlimited_workers) [
  | inl e ↦ rw e tt
  | inr e ↦ rw e (build_loop-Works new_options ss (omega arith))
]
