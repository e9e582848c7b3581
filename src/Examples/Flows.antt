-- ===== src/Examples/Flows.antt =====
-- Streams (common/util/stream) on small inputs.
use mathlib.Core.List.{Perm, flat_map}
use realmicro.Common.{
  ℕ, ◌+◌, ◌*◌, ◌%◌, ◌≤◌, List, [], ◌∷◌, some, pos, ◌≡◌, refl, arith, ==_iff, ◌==◌, length, select,
}
use realmicro.Collection.Ring.Recent.{last_of}
use realmicro.Collection.FixedRing.{add}
use realmicro.Streams.{head, skip, tail, distinct, group, reverse_items}
use realmicro.Streams.Cut.{tail-last_of}
use realmicro.Streams.Keys.{firsts, members, distinct-firsts, group-members, Separate}
use realmicro.Streams.Walk.{State, Event, start, write, finish, run, started}
use realmicro.Streams.Walk.Complete.{IsClosed, run-IsClosed, run_total}
use realmicro.Streams.Walk.Serial.{run-IsClosed_serial}

abbrev five : List ℕ
five = 1 ∷ (2 ∷ (3 ∷ (4 ∷ (5 ∷ []))))

cut_five :
    (head (pos 2) five ≡ some (1 ∷ (2 ∷ [])))
    × (skip (pos 2) five ≡ some (3 ∷ (4 ∷ (5 ∷ []))))
    × (tail 0 (pos 2) five ≡ some (4 ∷ (5 ∷ [])))
    × (reverse_items five ≡ 5 ∷ (4 ∷ (3 ∷ (2 ∷ (1 ∷ [])))))
unfolding head skip tail reverse_items add
cut_five = (refl, refl, refl, refl)

tail-last_of_example : tail 0 (pos 2) five ≡ some (last_of 2 five)
tail-last_of_example = tail-last_of 0 1 five (omega arith)

abbrev parity : ℕ → ℕ
parity n = n % 2

distinct-firsts_example : distinct ◌==◌ parity five ≡ firsts ◌==◌ parity five
distinct-firsts_example = distinct-firsts ◌==◌ parity ==_iff five

group-members_example :
    Separate ◌==◌ parity (group ◌==◌ parity five)
    × ((k : ℕ) → members ◌==◌ parity k (group ◌==◌ parity five) ≡ select (λ x. k == parity x) five)
group-members_example = group-members ◌==◌ parity ==_iff five

-- Two goroutines, of which the second writes first.
abbrev twice : ℕ → List ℕ
twice n = n ∷ (n * 10 ∷ [])

abbrev mixed : List Event
mixed =
    start ∷ (start ∷ (write 1 ∷ (write 0 ∷ (write 0 ∷ (finish 0 ∷ (write 0 ∷ (finish 0 ∷ [])))))))

abbrev both : List ℕ
both = 1 ∷ (2 ∷ [])

mixed_lem :
    run twice (some 2) mixed (started both)
    ≡ some (record { source = []; running = []; written = 2 ∷ (1 ∷ (10 ∷ (20 ∷ []))) })
unfolding run
mixed_lem = refl

run-IsClosed_example : Perm (2 ∷ (1 ∷ (10 ∷ (20 ∷ [])))) (flat_map twice both)
run-IsClosed_example = run-IsClosed twice (some 2) both mixed _ mixed_lem (refl, refl)

one_lem :
    run twice (some 2) (start ∷ []) (started both)
    ≡ some (record { source = 2 ∷ []; running = twice 1 ∷ []; written = [] })
unfolding run
one_lem = refl

run_total_example :
    (1 ≤ 2 + 2 + length (flat_map twice both))
    × ((more : List Event) × (s : State ℕ ℕ) × (run twice
            (some 2)
            more
            (record { source = 2 ∷ []; running = twice 1 ∷ []; written = [] })
          ≡ some s)
        × IsClosed twice (some 2) s)
run_total_example = run_total twice (some 2) both (start ∷ []) _ (omega arith) one_lem

abbrev in_turn : List Event
in_turn =
    start ∷ (write 0 ∷ (write 0 ∷ (finish 0 ∷ (start ∷ (write 0 ∷ (write 0 ∷ (finish 0 ∷ [])))))))

in_turn_lem :
    run twice (some 1) in_turn (started both)
    ≡ some (record { source = []; running = []; written = 1 ∷ (10 ∷ (2 ∷ (20 ∷ []))) })
unfolding run
in_turn_lem = refl

run-IsClosed_serial_example : 1 ∷ (10 ∷ (2 ∷ (20 ∷ []))) ≡ flat_map twice both
run-IsClosed_serial_example =
    run-IsClosed_serial twice (some 1) refl both in_turn _ in_turn_lem (refl, refl)
