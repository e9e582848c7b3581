-- ===== src/Examples/Flights.antt =====
-- Shared calls (common/util/sync/singleflight.go) on small inputs.
use realmicro.Common.{ℕ, List, [], ◌∷◌, ◌++◌, true, some, ◌≡◌, ◌↔◌, refl, codes, teq}
use realmicro.SingleFlight.{
  running, released, FlightGroup, new_single_flight, create_call, result, Event, create, end,
  let_go, run,
}
use realmicro.SingleFlight.Agreeing.{active}
use realmicro.SingleFlight.Exclusive.{create_call-active}
use realmicro.SingleFlight.Shared.{returned, result-returned}

-- Two goroutines call for one key, and a third for another.
abbrev three_calls : List (Event ℕ)
three_calls = create (codes "k") ∷ create (codes "k") ∷ create (codes "j") ∷ []

abbrev after_calls : FlightGroup ℕ
after_calls = record {
  calls = (codes "k", 0) ∷ (codes "j", 1) ∷ [];
  objects =
      record { key = codes "k"; stage = running }
      ∷ record { key = codes "j"; stage = running }
      ∷ [];
}

calls_lem : run three_calls new_single_flight ≡ some after_calls
unfolding run teq
calls_lem = refl

create_call-active_example :
    (create_call (codes "k") after_calls ≡ (after_calls, 0, true))
    ↔ (active after_calls (codes "k") 0 ≡ true)
create_call-active_example = create_call-active three_calls after_calls (codes "k") 0 calls_lem

abbrev after_release : FlightGroup ℕ
after_release = record {
  calls = (codes "j", 1) ∷ [];
  objects =
      record { key = codes "k"; stage = released (some 7) }
      ∷ record { key = codes "j"; stage = running }
      ∷ [];
}

-- The first call ends and is released.
abbrev all_steps : List (Event ℕ)
all_steps = three_calls ++ (end 0 (some 7) ∷ let_go 0 ∷ [])

release_lem : run all_steps new_single_flight ≡ some after_release
unfolding run teq
release_lem = refl

result_lem : result 0 after_release ≡ some (some 7)
unfolding result
result_lem = refl

result-returned_example : returned 0 all_steps ≡ some 7 ∷ []
result-returned_example = result-returned 0 all_steps after_release (some 7) release_lem result_lem
