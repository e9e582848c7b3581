-- ===== src/Collection/RollingWindow.antt =====
-- common/util/collection/rollingwindow/rollingwindow.go: sums in buckets of one interval each, in a
-- ring. Times are nanoseconds of the process's clock. The source's sums are float64: the values
-- that the repository adds are 0 and 1, and the model's are natural numbers.
pub mod Slots
pub mod Window
pub mod Reduce
pub mod History
use realmicro.Common.{
  ℕ, zero, suc, ◌+◌, ◌-◌, ◌*◌, ◌/◌, ◌%◌, List, [], ◌∷◌, Bool, true, false, ◌&&◌, ltb, ◌==◌, length,
  get_or, modify, replicate, if◌then◌else◌,
}

pub record Bucket : Type 0 where
  pub sum : ℕ
  pub count : ℕ

abbrev pub new_bucket : Bucket
new_bucket = record { sum = 0; count = 0 }

-- The methods `add` and `reset` of a bucket.
abbrev pub bucket_add : ℕ → Bucket → Bucket
bucket_add v b = record { sum = b.sum + v; count = b.count + 1 }

abbrev pub bucket_reset : Bucket → Bucket
bucket_reset b = record { sum = 0; count = 0 }

-- `window`
pub record Buckets : Type 0 where
  pub buckets : List Bucket
  pub size : ℕ

abbrev pub new_window : ℕ → Buckets
new_window size = record { buckets = replicate size new_bucket; size = size }

-- The methods `add`, `resetBucket` and `reduce` of a window. The callback of `reduce` is a fold
-- over the buckets in the order of its calls.
unfoldable pub window_add : Buckets → ℕ → ℕ → Buckets
window_add w offset v = record w { buckets = modify w.buckets (offset % w.size) (bucket_add v) }

unfoldable pub reset_bucket : Buckets → ℕ → Buckets
reset_bucket w offset = record w { buckets = modify w.buckets (offset % w.size) bucket_reset }

unfoldable pub window_reduce {ℓ} : {S : Type ℓ} → Buckets → ℕ → ℕ → (Bucket → S → S) → S → S
window_reduce w start zero fn s = s
window_reduce w start (suc count) fn s =
    window_reduce w (start + 1) count fn (fn (get_or w.buckets (start % w.size) new_bucket) s)

pub record RollingWindow : Type 0 where
  pub size : ℕ
  pub win : Buckets
  pub interval : ℕ
  pub offset : ℕ
  pub ignore_current : Bool
  pub last_time : ℕ

-- `New` at a size of at least 1: the source panics at a smaller one.
abbrev pub new_rolling : ℕ → ℕ → Bool → ℕ → RollingWindow
new_rolling size interval ignore_current now = record {
  size = size;
  win = new_window size;
  interval = interval;
  offset = 0;
  ignore_current = ignore_current;
  last_time = now;
}

-- `span` at a reading of the clock. Go's division goes towards zero, so a clock less than one
-- interval behind gives 0, and one further behind a negative number.
unfoldable pub span : RollingWindow → ℕ → ℕ
span rw now =
    if ltb now rw.last_time
    then (if ltb (rw.last_time - now) rw.interval then 0 else rw.size)
    else let offset = (now - rw.last_time) / rw.interval in
      if ltb offset rw.size then offset else rw.size

-- `for i := 0; i < span; i++ { rw.win.resetBucket((offset + i + 1) % rw.size) }`: the last round is
-- the outermost call.
unfoldable pub reset_expired : Buckets → ℕ → ℕ → ℕ → Buckets
unfolding reset_bucket
reset_expired w size offset zero = w
reset_expired w size offset (suc i) =
    reset_bucket (reset_expired w size offset i) ((offset + i + 1) % size)

-- `updateOffset`, which reads the clock twice: in `span` and for `now`.
unfoldable pub update_offset : RollingWindow → ℕ → ℕ → RollingWindow
unfolding span reset_expired
update_offset rw t now =
    let n = span rw t in
    if n == 0 then rw else record rw {
      win = reset_expired rw.win rw.size rw.offset n;
      offset = (rw.offset + n) % rw.size;
      last_time = now - (now - rw.last_time) % rw.interval;
    }

unfoldable pub add : RollingWindow → ℕ → ℕ → ℕ → RollingWindow
unfolding update_offset window_add
add rw t now v =
    let rw1 = update_offset rw t now in record rw1 { win = window_add rw1.win rw1.offset v }

-- How many buckets `Reduce` reads.
unfoldable pub reduce_count : RollingWindow → ℕ → ℕ
unfolding span
reduce_count rw now =
    let n = span rw now in if n == 0 && rw.ignore_current then rw.size - 1 else rw.size - n

unfoldable pub reduce {ℓ} : {S : Type ℓ} → RollingWindow → ℕ → (Bucket → S → S) → S → S
unfolding span reduce_count window_reduce
reduce rw now fn s =
    let diff = reduce_count rw now in
    if ltb 0 diff
    then window_reduce rw.win ((rw.offset + span rw now + 1) % rw.size) diff fn s
    else s
