-- ===== src/Examples/Windows.antt =====
-- Rolling windows, ring buffers (common/util/collection) and the throttle (common/util/breaker) on
-- small inputs.
use realmicro.Common.{
  ℕ, ◌+◌, ◌-◌, ◌*◌, ◌<◌, Text, List, [], ◌∷◌, ◌++◌, Bool, true, false, none, some, pos, negsuc, ◌≡◌,
  ◌↔◌, refl, arith, select, ltb, map,
}
use realmicro.Collection.RollingWindow.{Bucket, RollingWindow, new_rolling, reduce, add}
use realmicro.Collection.RollingWindow.Reduce.{fold_slots, slots_read}
use realmicro.Collection.RollingWindow.Window.{slot}
use realmicro.Collection.RollingWindow.History.{Event, run, tally, no_events, reduce-tally}
use realmicro.Collection.Ring.{Entry, Buffer, new, put, get, since}
use realmicro.Collection.Ring.Recent.{Call, put_all, entry_of, last_of, get-put_all, since-select}
use realmicro.Breaker.Google.{
  new_google_breaker, Fraction, nil, returns, returned, Readings, accept, do_req,
  default_acceptable,
}
use realmicro.Breaker.Google.Healthy.{recent_counts, IsClean, accept-recent_counts, do_req-IsClean}

abbrev three_events : List Event
three_events = (1003, 1004, 5) ∷ ((1012, 1013, 7) ∷ ((1029, 1029, 9) ∷ []))

abbrev sums : Bucket → List ℕ → List ℕ
sums b s = s ++ (b.sum ∷ [])

-- Three buckets of ten ticks: at 1035 the last slots hold 7, 9 and nothing.
reduce_three : reduce (run (new_rolling 3 10 false 1000) three_events) 1035 sums [] ≡ 7 ∷ (9 ∷ [])
unfolding reduce run add
reduce_three = refl

reduce-tally_example :
    reduce (run (new_rolling 3 10 false 1000) three_events) 1035 sums []
    ≡ fold_slots
        (tally 3 10 1000 no_events three_events)
        (slot 3 10 1000 1035 + 1 - 3)
        (slots_read 3 false (slot 3 10 1000 1035 - slot 3 10 1000 1029))
        sums
        []
reduce-tally_example =
    reduce-tally 3 10 1000 false three_events 1035 sums [] (omega arith) (omega arith)
      (
        omega arith,
        omega arith,
        refl,
        (omega arith, omega arith, refl, (omega arith, omega arith, refl, tt)),
      )
      (omega arith)

abbrev any_choice : Text → Bool
any_choice k = true

abbrev three_puts : List (Call ℕ)
three_puts = (any_choice, 5, 10) ∷ ((any_choice, 6, 20) ∷ ((any_choice, 7, 30) ∷ []))

abbrev entry : ℕ → ℕ → Entry ℕ
entry v now = record { value = v; timestamp = now }

abbrev last_two : Buffer ℕ
last_two = record { size = 2; vals = entry 6 20 ∷ (entry 7 30 ∷ []); streams = [] }

put_three : put_all three_puts (new ℕ 2) ≡ some last_two
unfolding put_all put new
put_three = refl

get-put_all_example :
    (b : Buffer ℕ) × (put_all three_puts (new ℕ 2) ≡ some b)
    × (get (pos 1) b ≡ last_of 1 (map entry_of three_puts))
    × (get (negsuc 1) b ≡ last_of 2 (map entry_of three_puts))
get-put_all_example = get-put_all 2 three_puts 1

since-select_example :
    since 20 40 last_two
    ≡ select (λ (e : Entry ℕ). ltb 20 e.timestamp) (entry 6 20 ∷ (entry 7 30 ∷ []))
since-select_example =
    since-select 20 40 last_two ((omega arith, tt), (tt, tt)) (omega arith) (omega arith)

-- Failures only, in one slot.
abbrev failures : List Event
failures = (5, 5, 0) ∷ ((6, 6, 0) ∷ ((7, 7, 0) ∷ ((8, 8, 0) ∷ ((9, 9, 0) ∷ ((10, 10, 0) ∷ [])))))

abbrev low_draw : Fraction
low_draw = record { num = 1; den = 100 }

accept-failures : accept (run (new_google_breaker 0) failures) 20 low_draw ≡ false
unfolding accept run add
accept-failures = refl

accept-recent_counts_example :
    let (accepts, total) = recent_counts 0 failures 20 in
    (accept (run (new_google_breaker 0) failures) 20 low_draw ≡ false) ↔ (
      (10 + 3 * accepts < 2 * total)
      × (low_draw.num * (2 * (total + 1)) < (2 * total - (10 + 3 * accepts)) * low_draw.den))
accept-recent_counts_example =
    accept-recent_counts 0 failures 20 low_draw
      (
        omega arith,
        omega arith,
        refl,
        (
          omega arith,
          omega arith,
          refl,
          (
            omega arith,
            omega arith,
            refl,
            (
              omega arith,
              omega arith,
              refl,
              (omega arith, omega arith, refl, (omega arith, omega arith, refl, tt)),
            ),
          ),
        ),
      )
      (omega arith)

abbrev at_five : Readings
at_five = record { at_accept = 5; at_span = 6; at_now = 6 }

abbrev successes : RollingWindow
successes = add (new_rolling 2 10 false 0) 3 3 1

successes-IsClean : IsClean successes
unfolding add
successes-IsClean = (refl, (refl, tt))

do_req-IsClean_example :
    ((do_req default_acceptable none (returns nil) at_five low_draw successes).1 ≡ returned nil)
    × IsClean (do_req default_acceptable none (returns nil) at_five low_draw successes).0
do_req-IsClean_example =
    do_req-IsClean default_acceptable none nil at_five low_draw successes successes-IsClean refl
