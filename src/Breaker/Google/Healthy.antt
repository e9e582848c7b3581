-- ===== src/Breaker/Google/Healthy.antt =====
-- The throttle (googlebreaker.go) by what its window holds: when it drops a request, and that it
-- drops none while every request succeeds.
use realmicro.Common.{
  ℕ, zero, suc, ◌+◌, ◌-◌, ◌*◌, ◌%◌, ◌<◌, ◌≤◌, ◌≡◌, refl, ap, ◌∙◌, ◌↔◌, inl, inr, List, [], ◌∷◌,
  Bool, true, false, Option, ltb, ◌==◌, All, get_or, modify, arith, Bool-cases,
}
use realmicro.Collection.RollingWindow.{
  Bucket, Buckets, RollingWindow, new_bucket, bucket_add, bucket_reset, reset_expired,
  update_offset, window_reduce, reduce_count, span,
}
use realmicro.Collection.RollingWindow.Reduce.{fold_slots, slots_read}
use realmicro.Collection.RollingWindow.Window.{slot}
use realmicro.Collection.RollingWindow.History.{
  Event, run, InOrder, last_now, tally, no_events, reduce-tally,
}
use realmicro.Breaker.Google.{
  new_google_breaker, buckets, count_bucket, history, Fraction, accept, Err, returns, returned,
  Readings, mark_success, do_req,
}

-- Accepts and total over the last 40 slots of a history of calls.
abbrev pub recent_counts : ℕ → List Event → ℕ → ℕ × ℕ
recent_counts start es t =
    fold_slots (tally buckets 250000000 start no_events es)
      (slot buckets 250000000 start t + 1 - buckets)
      (slots_read buckets false (
        slot buckets 250000000 start t
        - slot buckets 250000000 start (last_now buckets 250000000 start start es)))
      count_bucket (0, 0)

history-recent_counts :
    (start : ℕ) (es : List Event) (t : ℕ)
    → InOrder buckets 250000000 start start es
    → last_now buckets 250000000 start start es ≤ t
    → history (run (new_google_breaker start) es) t ≡ recent_counts start es t
unfolding history
history-recent_counts start es t o le =
    reduce-tally buckets 250000000 start false es t count_bucket (0, 0) (omega arith) (omega arith)
      o le

accept_iff :
    (stat : RollingWindow) (now : ℕ) (draw : Fraction) (accepts total : ℕ)
    → history stat now ≡ (accepts, total)
    → (accept stat now draw ≡ false) ↔ (
        (10 + 3 * accepts < 2 * total)
        × (draw.num * (2 * (total + 1)) < (2 * total - (10 + 3 * accepts)) * draw.den))
unfolding accept
accept_iff stat now draw accepts total e = rw e (ground arith)

-- After calls in order of time, each with its clock readings in one slot, the throttle refuses a
-- request exactly when twice the requests of the last 40 slots are more than ten and three times the
-- successes together, and the draw is below the drop ratio.
pub accept-recent_counts :
    (start : ℕ) (es : List Event) (t : ℕ) (draw : Fraction)
    → InOrder buckets 250000000 start start es
    → last_now buckets 250000000 start start es ≤ t
    → let (accepts, total) = recent_counts start es t in
      (accept (run (new_google_breaker start) es) t draw ≡ false) ↔ (
        (10 + 3 * accepts < 2 * total)
        × (draw.num * (2 * (total + 1)) < (2 * total - (10 + 3 * accepts)) * draw.den))
accept-recent_counts start es t draw o le =
    accept_iff (run (new_google_breaker start) es) t draw (recent_counts start es t).0
      (recent_counts start es t).1 (history-recent_counts start es t o le)

-- Every bucket counts as many successes as requests.
abbrev pub IsClean : RollingWindow → Type 0
IsClean w = All (λ b. b.sum ≡ b.count) w.win.buckets

All-modify :
    (P : Bucket → Type 0) (xs : List Bucket) (i : ℕ) (f : Bucket → Bucket)
    → ((b : Bucket) → P b → P (f b))
    → All P xs
    → All P (modify xs i f)
All-modify P [] i f k h = tt
All-modify P (x ∷ xs) zero f k h = (k x h.0, h.1)
All-modify P (x ∷ xs) (suc i) f k h = (h.0, All-modify P xs i f k h.1)

All-get_or :
    (P : Bucket → Type 0) (xs : List Bucket) (i : ℕ)
    → P new_bucket
    → All P xs
    → P (get_or xs i new_bucket)
All-get_or P [] i d h = d
All-get_or P (x ∷ xs) zero d h = h.0
All-get_or P (x ∷ xs) (suc i) d h = All-get_or P xs i d h.1

abbrev IsEven : Bucket → Type 0
IsEven b = b.sum ≡ b.count

reset_expired-All :
    (w : Buckets) (n offset k : ℕ)
    → All IsEven w.buckets
    → All IsEven (reset_expired w n offset k).buckets
unfolding reset_expired
reset_expired-All w n offset zero h = h
reset_expired-All w n offset (suc k) h =
    All-modify IsEven (reset_expired w n offset k).buckets
      ((offset + k + 1) % n % (reset_expired w n offset k).size) bucket_reset (λ b _. refl)
      (reset_expired-All w n offset k h)

update_offset-IsClean :
    (w : RollingWindow) (t now : ℕ) → IsClean w → IsClean (update_offset w t now)
unfolding update_offset
update_offset-IsClean w t now h = elim (Bool-cases (span w t == 0)) [
  | inl still ↦ rw still h
  | inr past ↦ rw past (reset_expired-All w.win w.size w.offset (span w t) h)
]

mark_success-IsClean : (w : RollingWindow) (r : Readings) → IsClean w → IsClean (mark_success w r)
unfolding mark_success
mark_success-IsClean w r h =
    All-modify IsEven w1.win.buckets (w1.offset % w1.win.size) (bucket_add 1) (λ b e. omega arith)
      (update_offset-IsClean w r.at_span r.at_now h)
  where
    w1 : RollingWindow
    w1 = update_offset w r.at_span r.at_now

window_reduce-even :
    (w : Buckets) (start count n : ℕ)
    → All IsEven w.buckets
    → (m : ℕ) × (window_reduce w start count count_bucket (n, n) ≡ (m, m))
unfolding window_reduce
window_reduce-even w start zero n h = (n, refl)
window_reduce-even w start (suc count) n h =
    let b : Bucket = get_or w.buckets (start % w.size) new_bucket in
    let e : b.sum ≡ b.count = All-get_or IsEven w.buckets (start % w.size) refl h in
    let (m, ih) = window_reduce-even w (start + 1) count (n + b.count) h in
    (m, ap (λ k. window_reduce w (start + 1) count count_bucket (n + k, n + b.count)) e ∙ ih)

history-even : (w : RollingWindow) (now : ℕ) → IsClean w → (m : ℕ) × (history w now ≡ (m, m))
unfolding history
history-even w now h = elim (Bool-cases (ltb 0 (reduce_count w now))) [
  | inl some_read ↦
      rw some_read
        (window_reduce-even w.win ((w.offset + span w now + 1) % w.size) (reduce_count w now) 0 h)
  | inr none_read ↦ rw none_read (0, refl)
]

accept-even : (w : RollingWindow) (now : ℕ) (draw : Fraction) → IsClean w → accept w now draw ≡ true
unfolding accept
accept-even w now draw h = let (m, even) = history-even w now h in rw even (ground arith)

-- While the window holds successes alone, a request is let through whatever the clock and the draw
-- are; if its error is acceptable it is returned, and the window still holds successes alone.
pub do_req-IsClean :
    (acceptable : Err → Bool) (fallback : Option (Err → Err)) (e : Err) (r : Readings)
    (draw : Fraction) (stat : RollingWindow)
    → IsClean stat
    → acceptable e ≡ true
    → ((do_req acceptable fallback (returns e) r draw stat).1 ≡ returned e)
      × IsClean (do_req acceptable fallback (returns e) r draw stat).0
unfolding do_req
do_req-IsClean acceptable fallback e r draw stat h ok =
    rw (accept-even stat r.at_accept draw h) (rw ok (refl, mark_success-IsClean stat r h))
