-- ===== src/Collection/RollingWindow/Reduce.antt =====
-- `Reduce` (rollingwindow.go) after any sequence of additions.
use native.Mathlib.Nat.{mod-add-mod}
use realmicro.Common.{
  ℕ, zero, suc, ◌+◌, ◌-◌, ◌/◌, ◌%◌, ◌<◌, ◌≤◌, ◌≡◌, refl, ap, ◌∙◌, arith, ltb, ◌==◌, ◌&&◌, Bool,
  lt→ltb, if◌then◌else◌,
}
use realmicro.Collection.RollingWindow.{
  Bucket, Buckets, RollingWindow, span, reduce, reduce_count, window_reduce,
}
use realmicro.Collection.RollingWindow.Slots.{bucket, bucket_congr}
use realmicro.Collection.RollingWindow.Window.{slot, Shows, slot-eq, span_facts}

-- A fold over `count` slots from `first` on, oldest first.
abbrev pub fold_slots {ℓ} : {S : Type ℓ} → (ℕ → Bucket) → ℕ → ℕ → (Bucket → S → S) → S → S
fold_slots T first zero fn s = s
fold_slots T first (suc count) fn s = fold_slots T (first + 1) count fn (fn (T first) s)

window_reduce-eq {ℓ} :
    {S : Type ℓ} (T : ℕ → Bucket) (w : Buckets) (first start count : ℕ) (fn : Bucket → S → S)
    (s : S)
    → ((i : ℕ) → i < count → bucket w (start + i) ≡ T (first + i))
    → window_reduce w start count fn s ≡ fold_slots T first count fn s
unfolding window_reduce
window_reduce-eq T w first start zero fn s h = refl
window_reduce-eq T w first start (suc count) fn s h =
    ap (λ b. window_reduce w (start + 1) count fn (fn b s))
      (ap (bucket w) {x = start} {y = start + 0} (omega arith)
        ∙ h 0 (omega arith)
        ∙ ap T {x = first + 0} {y = first} (omega arith))
    ∙ window_reduce-eq T w (first + 1) (start + 1) count fn (fn (T first) s) (λ i l.
      ap (bucket w) {x = start + 1 + i} {y = start + (i + 1)} (omega arith)
      ∙ h (i + 1) (omega arith)
      ∙ ap T {x = first + (i + 1)} {y = first + 1 + i} (omega arith))

-- How many slots `Reduce` reads at `d` slots after the last one of the window.
abbrev pub slots_read : ℕ → Bool → ℕ → ℕ
slots_read n ignore_current d = if d == 0 && ignore_current then n - 1 else n - d

skip_zero {ℓ} :
    {S : Type ℓ} (w : Buckets) (start count : ℕ) (fn : Bucket → S → S) (s : S)
    → (if ltb 0 count then window_reduce w start count fn s else s)
      ≡ window_reduce w start count fn s
unfolding window_reduce
skip_zero w start zero fn s = refl
skip_zero w start (suc count) fn s = rw (lt→ltb 0 (suc count) (omega arith))

module _ (start e : ℕ) (T : ℕ → Bucket) (w : RollingWindow) (t : ℕ) (h : Shows start e T w)
    (le : w.last_time ≤ t) where
  count_eq : reduce_count w t ≡ slots_read w.size w.ignore_current ((t - w.last_time) / w.interval)
  unfolding reduce_count
  count_eq = ground (arith, span_facts start e T w h t le, h.ring.2)

  read :
      (i : ℕ)
      → i < slots_read w.size w.ignore_current ((t - w.last_time) / w.interval)
      → bucket w.win ((w.offset + span w t + 1) % w.size + i)
        ≡ T (e + (t - w.last_time) / w.interval + 1 + i)
  read i l =
      bucket_congr w.size w.win h.ring ((w.offset + span w t + 1) % w.size + i)
        (w.offset + (span w t + i) + 1)
        (mod-add-mod (w.offset + span w t + 1) w.size i ∙ ap (λ j. j % w.size) (omega arith))
      ∙ h.shown (span w t + i) (ground (arith, span_facts start e T w h t le))
      ∙ ap T (ground (arith, span_facts start e T w h t le))

-- A window that shows `T` reduces over the slots that are still within reach of the clock.
pub reduce-Shows {ℓ} :
    {S : Type ℓ} (start e : ℕ) (T : ℕ → Bucket) (w : RollingWindow) (t : ℕ) (fn : Bucket → S → S)
    (s : S)
    → Shows start e T w
    → w.last_time ≤ t
    → reduce w t fn s
      ≡ fold_slots T
          (slot w.size w.interval start t + 1 - w.size)
          (slots_read w.size w.ignore_current ((t - w.last_time) / w.interval))
          fn
          s
unfolding reduce
reduce-Shows start e T w t fn s h le =
    skip_zero w.win ((w.offset + k + 1) % w.size) (reduce_count w t) fn s
    ∙ ap (λ c. window_reduce w.win ((w.offset + k + 1) % w.size) c fn s)
        (count_eq start e T w t h le)
    ∙ window_reduce-eq T w.win (e + d + 1) ((w.offset + k + 1) % w.size) count fn s
        (read start e T w t h le)
    ∙ ap (λ a. fold_slots T a count fn s) (omega (arith, slot-eq start e T w h t le))
  where
    k : ℕ
    k = span w t

    d : ℕ
    d = (t - w.last_time) / w.interval

    count : ℕ
    count = slots_read w.size w.ignore_current d
