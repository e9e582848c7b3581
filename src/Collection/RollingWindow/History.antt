-- ===== src/Collection/RollingWindow/History.antt =====
-- A rolling window from `New` on, after any additions (rollingwindow.go).
use native.Mathlib.Nat.{zero-div}
use realmicro.Common.{
  ℕ, zero, suc, ◌+◌, ◌-◌, ◌/◌, ◌%◌, ◌<◌, ◌≤◌, ◌≡◌, refl, ap, ◌∙◌, ap₂, List, get_or, arith, Bool,
  [], ◌∷◌, subst, length-replicate, replicate,
}
use realmicro.Collection.RollingWindow.{Bucket, RollingWindow, new_bucket, add, reduce, new_rolling}
use realmicro.Collection.RollingWindow.Window.{
  slot, Shows, slot-eq, record_at, add-Shows, Frame, add-Frame,
}
use realmicro.Collection.RollingWindow.Reduce.{fold_slots, slots_read, reduce-Shows}

-- A call of `Add`: the two readings of the clock, and the value.
abbrev pub Event : Type 0
Event = ℕ × ℕ × ℕ

unfoldable pub run : RollingWindow → List Event → RollingWindow
run w [] = w
run w ((t, now, v) ∷ es) = run (add w t now v) es

module _ (n interval start : ℕ) where
  -- The calls in order of time, from `from` on, and both readings of a call in one slot.
  abbrev pub InOrder : ℕ → List Event → Type 0
  InOrder from [] = Unit
  InOrder from ((t, now, v) ∷ es) =
      (from ≤ t)
      × (t ≤ now)
      × (slot n interval start now ≡ slot n interval start t)
      × InOrder now es

  -- The specification: each value is counted in the slot of its time.
  abbrev pub tally : (ℕ → Bucket) → List Event → ℕ → Bucket
  tally T [] = T
  tally T ((t, now, v) ∷ es) = tally (record_at (slot n interval start t) v T) es

  -- The time and the slot of the last call.
  abbrev pub last_now : ℕ → List Event → ℕ
  last_now from [] = from
  last_now from ((t, now, v) ∷ es) = last_now now es

-- What is known of a window after its calls.
record Reached (n interval start : ℕ) (ignore : Bool) (from : ℕ) (T : ℕ → Bucket)
    (w : RollingWindow) : Type 0 where
  last : ℕ
  shows : Shows start last T w
  size_eq : w.size ≡ n
  interval_eq : w.interval ≡ interval
  ignore_eq : w.ignore_current ≡ ignore
  not_ahead : w.last_time ≤ from
  current : slot n interval start from ≡ last + n

module _ (n interval start : ℕ) (ignore : Bool) (from : ℕ) (T : ℕ → Bucket) (w : RollingWindow)
    (r : Reached n interval start ignore from T w) where
  slot_same : (t : ℕ) → slot w.size w.interval start t ≡ slot n interval start t
  slot_same t = ap₂ (λ a b. slot a b start t) r.size_eq r.interval_eq

  ahead_same :
      (t now : ℕ)
      → w.last_time ≤ t
      → t ≤ now
      → slot n interval start now ≡ slot n interval start t
      → (now - w.last_time) / w.interval ≡ (t - w.last_time) / w.interval
  ahead_same t now le later same = omega (
    arith,
    slot_same t,
    slot_same now,
    slot-eq start r.last T w r.shows t le,
    slot-eq start r.last T w r.shows now (omega arith),
  )

  add-Reached :
      (t now v : ℕ)
      → from ≤ t
      → t ≤ now
      → slot n interval start now ≡ slot n interval start t
      → Reached n interval start ignore now
          (record_at (slot n interval start t) v T)
          (add w t now v)
  add-Reached t now v le later same = record {
    last = r.last + (t - w.last_time) / w.interval;
    shows =
        subst
          (λ s.
            Shows start (r.last + (t - w.last_time) / w.interval) (record_at s v T) (add w t now v))
          (slot_same t)
          (add-Shows start r.last T w t now v r.shows (omega (arith, r.not_ahead)) later
            (ahead_same t now (omega (arith, r.not_ahead)) later same));
    size_eq = f.size_eq ∙ r.size_eq;
    interval_eq = f.interval_eq ∙ r.interval_eq;
    ignore_eq = f.ignore_eq ∙ r.ignore_eq;
    not_ahead = f.not_ahead;
    current = omega (
      arith,
      same,
      slot_same t,
      r.size_eq,
      slot-eq start r.last T w r.shows t (omega (arith, r.not_ahead)),
    );
  }
    where
      f : Frame w (add w t now v) now
      f = add-Frame w t now v (omega (arith, r.not_ahead))

run-Reached :
    (n interval start : ℕ) (ignore : Bool) (from : ℕ) (T : ℕ → Bucket) (w : RollingWindow)
    (es : List Event)
    → Reached n interval start ignore from T w
    → InOrder n interval start from es
    → Reached n interval start ignore
        (last_now n interval start from es)
        (tally n interval start T es)
        (run w es)
unfolding run
run-Reached n interval start ignore from T w [] r o = r
run-Reached n interval start ignore from T w ((t, now, v) ∷ es) r o =
    run-Reached n interval start ignore now (record_at (slot n interval start t) v T)
      (add w t now v) es (add-Reached n interval start ignore from T w r t now v o.0 o.1 o.2) o.3

abbrev pub no_events : ℕ → Bucket
no_events s = new_bucket

get_or-replicate : (n i : ℕ) → get_or (replicate n new_bucket) i new_bucket ≡ new_bucket
get_or-replicate zero i = refl
get_or-replicate (suc n) zero = refl
get_or-replicate (suc n) (suc i) = get_or-replicate n i

new_rolling-Reached :
    (n interval start : ℕ) (ignore : Bool)
    → 0 < n
    → 0 < interval
    → Reached n interval start ignore start no_events (new_rolling n interval ignore start)
new_rolling-Reached n interval start ignore n_pos i_pos = record {
  last = 0;
  shows = record {
    ring = (refl, length-replicate n new_bucket, n_pos);
    interval_pos = i_pos;
    offset_lt = n_pos;
    time = omega arith;
    shown = λ i l. get_or-replicate n ((0 + i + 1) % n);
    future = λ s l. refl;
  };
  size_eq = refl;
  interval_eq = refl;
  ignore_eq = refl;
  not_ahead = omega arith;
  current =
      let none_yet : start - start ≡ 0 = omega arith in
      ap (λ k. n + k) (ap (λ k. k / interval) none_yet ∙ zero-div interval) ∙ omega arith;
}

-- After any calls of `Add` in order of time, each with its two clock readings in one slot, `Reduce`
-- at a later time folds over the tallies of the last `n` slots up to that time, oldest first. It
-- leaves out slots later than that of the last call, which are empty, and the current slot where
-- the window was told to ignore it and the last call is in it.
pub reduce-tally {ℓ} :
    {S : Type ℓ} (n interval start : ℕ) (ignore : Bool) (es : List Event) (t : ℕ)
    (fn : Bucket → S → S) (s : S)
    → 0 < n
    → 0 < interval
    → InOrder n interval start start es
    → last_now n interval start start es ≤ t
    → reduce (run (new_rolling n interval ignore start) es) t fn s
      ≡ fold_slots
          (tally n interval start no_events es)
          (slot n interval start t + 1 - n)
          (slots_read n ignore
            (slot n interval start t - slot n interval start (last_now n interval start start es)))
          fn
          s
reduce-tally n interval start ignore es t fn s n_pos i_pos o le =
    reduce-Shows start r.last T w t fn s r.shows (omega (arith, r.not_ahead))
    ∙ ap₂ (λ a b. fold_slots T (a + 1 - b) (slots_read b w.ignore_current ahead) fn s)
        (slot_same n interval start ignore last T w r t) r.size_eq
    ∙ ap₂ (λ b d. fold_slots T (slot n interval start t + 1 - n) (slots_read n b d) fn s)
        r.ignore_eq
        (omega (
          arith,
          r.current,
          r.size_eq,
          slot_same n interval start ignore last T w r t,
          slot-eq start r.last T w r.shows t (omega (arith, r.not_ahead)),
        ))
  where
    w : RollingWindow
    w = run (new_rolling n interval ignore start) es

    T : ℕ → Bucket
    T = tally n interval start no_events es

    last : ℕ
    last = last_now n interval start start es

    r : Reached n interval start ignore last T w
    r =
        run-Reached n interval start ignore start no_events (new_rolling n interval ignore start) es
          (new_rolling-Reached n interval start ignore n_pos i_pos) o

    ahead : ℕ
    ahead = (t - w.last_time) / w.interval
