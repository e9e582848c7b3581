-- ===== src/Streams/Walk.antt =====
-- `Walk` of stream.go, and `Map`, `Filter` and the options on it. A goroutine is the list of the items
-- that it has yet to write to the pipe: `fn` gives what the caller's function writes for an item
-- before it returns or panics (`GoSafe` recovers). An event is a choice of the scheduler.

pub mod Moves
pub mod Complete
pub mod Serial
use realmicro.Common.{
  ℕ, zero, suc, ◌+◌, List, [], ◌∷◌, ◌++◌, Bool, true, false, Option, none, some, ℤ, pos, negsuc,
  ltb, ltb_ℤ, length, get_elem?, set, if◌then◌else◌,
}

pub record RxOptions : Type 0 where
  pub unlimited_workers : Bool
  pub workers : ℤ

abbrev pub default_workers : ℤ
default_workers = pos 16

abbrev pub min_workers : ℤ
min_workers = pos 1

unfoldable pub new_options : RxOptions
new_options = record { unlimited_workers = false; workers = default_workers }

-- An `Option` by what it does.
pub data Setting : Type 0 where
  unlimited : Setting
  with_workers : ℤ → Setting

unfoldable pub apply : RxOptions → Setting → RxOptions
apply o unlimited = record o { unlimited_workers = true }
apply o (with_workers workers) = record o {
  workers = if ltb_ℤ workers min_workers then min_workers else workers;
}

unfoldable pub build_loop : RxOptions → List Setting → RxOptions
unfolding apply
build_loop o [] = o
build_loop o (s ∷ ss) = build_loop (apply o s) ss

unfoldable pub build_options : List Setting → RxOptions
unfolding build_loop new_options
build_options opts = build_loop new_options opts

abbrev pub capacity : ℤ → ℕ
capacity (pos n) = n
capacity (negsuc n) = 0

-- How many goroutines may run at once; `none` is no limit.
unfoldable pub limit_of : RxOptions → Option ℕ
limit_of o = if o.unlimited_workers then none else some (capacity o.workers)

module _ {ℓ κ} (A : Type ℓ) (B : Type κ) where
  pub record State : Type (ℓ ⊔ κ) where
    pub source : List A
    pub running : List (List B)
    pub written : List B

module _ {ℓ κ} {A : Type ℓ} {B : Type κ} where
  abbrev pub started : List A → State A B
  started source = record { source = source; running = []; written = [] }

-- The loop takes an item and starts its goroutine; the goroutine at a place writes an item, or ends.
pub data Event : Type 0 where
  start : Event
  write : ℕ → Event
  finish : ℕ → Event

abbrev pub has_room : Option ℕ → ℕ → Bool
has_room none n = true
has_room (some workers) n = ltb n workers

abbrev pub remove_at {ℓ} : {A : Type ℓ} → List A → ℕ → List A
remove_at [] i = []
remove_at (x ∷ xs) zero = xs
remove_at (x ∷ xs) (suc i) = x ∷ remove_at xs i

module _ {ℓ κ} {A : Type ℓ} {B : Type κ} (fn : A → List B) (limit : Option ℕ) where
  abbrev pub start_next : State A B → List A → Option (State A B)
  start_next s [] = none
  start_next s (item ∷ rest) =
      if has_room limit (length s.running)
      then some (record s { source = rest; running = s.running ++ (fn item ∷ []) })
      else none

  abbrev pub write_at : State A B → ℕ → Option (List B) → Option (State A B)
  write_at s i none = none
  write_at s i (some []) = none
  write_at s i (some (b ∷ bs)) =
      some (record s { running = set s.running i bs; written = s.written ++ (b ∷ []) })

  abbrev pub finish_at : State A B → ℕ → Option (List B) → Option (State A B)
  finish_at s i none = none
  finish_at s i (some (b ∷ bs)) = none
  finish_at s i (some []) = some (record s { running = remove_at s.running i })

  -- `none`: the event cannot happen in this state.
  unfoldable pub step : State A B → Event → Option (State A B)
  step s start = start_next s s.source
  step s (write i) = write_at s i (get_elem? s.running i)
  step s (finish i) = finish_at s i (get_elem? s.running i)

  unfoldable pub run : List Event → State A B → Option (State A B)
  unfolding step
  run [] s = some s
  run (e ∷ es) s = elim (step s e) [ none ↦ none | some s' ↦ run es s' ]

-- The function that `Map` hands to `Walk`.
unfoldable pub map_fn {ℓ κ} : {A : Type ℓ} {B : Type κ} → (A → B) → A → List B
map_fn fn item = fn item ∷ []

-- The function that `Filter` hands to `Walk`.
unfoldable pub filter_fn {ℓ} : {A : Type ℓ} → (A → Bool) → A → List A
filter_fn fn item = if fn item then item ∷ [] else []
