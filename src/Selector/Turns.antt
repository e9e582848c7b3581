-- ===== src/Selector/Turns.antt =====
-- The round robin of selector/strategy.go goes round.
use native.Mathlib.Nat.{mod-add-mod, mod-eq_of_lt, mod-lt, add-mod_right, zero-mod}
use mathlib.Core.List.{map-append}
use realmicro.Common.{
  ℕ, zero, suc, ◌+◌, ◌-◌, ◌%◌, ◌^◌, ◌<◌, ◌≤◌, ◌≡◌, refl, sym, ap, ap₂, ◌∙◌, List, [], ◌∷◌, ◌++◌,
  map, ◌==◌, length, get_elem?, take, drop, arith, lt→ltb, false, length-drop,
}
use realmicro.Registry.{Node}
use realmicro.Selector.{Turn, chosen, turn_of, round_robin_next}

-- What calls in a row give.
unfoldable pub turns : List Node → ℕ → ℕ → List Turn
turns nodes i zero = []
turns nodes i (suc k) =
    let rest = turns nodes (round_robin_next nodes i).1 k in (round_robin_next nodes i).0 ∷ rest

take-drop-suc :
    (nodes : List Node) (r k : ℕ)
    → r < length nodes
    → map chosen (take (suc k) (drop r nodes))
      ≡ turn_of (get_elem? nodes r) ∷ map chosen (take k (drop (suc r) nodes))
take-drop-suc [] r k h = absurd (omega arith)
take-drop-suc (n ∷ ns) zero k h = refl
take-drop-suc (n ∷ ns) (suc r) k h = take-drop-suc ns r k (omega arith)

take_all : (k : ℕ) (xs : List Node) → length xs ≤ k → take k xs ≡ xs
take_all zero [] h = refl
take_all (suc k) [] h = refl
take_all zero (x ∷ xs) h = absurd (omega arith)
take_all (suc k) (x ∷ xs) h = ap (◌∷◌ x) (take_all k xs (omega arith))

module _ (nodes : List Node) where
  -- One call, with the counter in range.
  next-lem :
      (i : ℕ)
      → 0 < length nodes
      → i + 1 ≤ 2 ^ 63
      → round_robin_next nodes i ≡ (turn_of (get_elem? nodes (i % length nodes)), i + 1)
  unfolding round_robin_next
  next-lem i pos_n h = rw nonempty (
      rw (lt→ltb i (2 ^ 63) (omega arith)) (
        ap (λ k. (turn_of (get_elem? nodes (i % length nodes)), k)) {x = (i + 1) % 2 ^ 64}
          {y = i + 1} (omega arith)))
    where
      nonempty : (length nodes == 0) ≡ false
      nonempty = ground (arith, pos_n)

  -- Calls before the last node is reached.
  turns-take :
      (k i r : ℕ)
      → i % length nodes ≡ r
      → r + k ≤ length nodes
      → i + k ≤ 2 ^ 63
      → 0 < length nodes
      → turns nodes i k ≡ map chosen (take k (drop r nodes))
  unfolding turns
  turns-take zero i r e l h n = refl
  turns-take (suc k) i r e l h n =
      rw (next-lem i n (omega arith), e)
        (ap (◌∷◌ (turn_of (get_elem? nodes r))) (rest k l h (turns-take k))
          ∙ sym (take-drop-suc nodes r k (omega arith)))
    where
      rest :
          (k : ℕ)
          → r + suc k ≤ length nodes
          → i + suc k ≤ 2 ^ 63
          → ((i r : ℕ)
              → i % length nodes ≡ r
              → r + k ≤ length nodes
              → i + k ≤ 2 ^ 63
              → 0 < length nodes
              → turns nodes i k ≡ map chosen (take k (drop r nodes)))
          → turns nodes (i + 1) k ≡ map chosen (take k (drop (suc r) nodes))
      rest zero l h ih = refl
      rest (suc k) l h ih = ih (i + 1) (suc r) step (omega arith) (omega arith) n
        where
          step : (i + 1) % length nodes ≡ suc r
          step =
              sym (mod-add-mod i (length nodes) 1)
              ∙ ap (λ j. (j + 1) % length nodes) e
              ∙ ap (λ j. j % length nodes) {x = r + 1} {y = suc r} (omega arith)
              ∙ mod-eq_of_lt (omega arith)

  turns-add :
      (k l i : ℕ)
      → 0 < length nodes
      → i + k ≤ 2 ^ 63
      → turns nodes i (k + l) ≡ turns nodes i k ++ turns nodes (i + k) l
  unfolding turns
  turns-add zero l i n h =
      ap₂ (turns nodes) {x = i} {y = i + 0} {u = zero + l} {v = l} (omega arith) (omega arith)
  turns-add (suc k) l i n h =
      ap (turns nodes i) {x = suc k + l} {y = suc (k + l)} (omega arith)
      ∙ rw (next-lem i n (omega arith)) (
          ap (◌∷◌ (turn_of (get_elem? nodes (i % length nodes)))) (
            turns-add k l (i + 1) n (omega arith)
            ∙ ap (λ j. turns nodes (i + 1) k ++ turns nodes j l) {x = i + 1 + k} {y = i + suc k}
                (omega arith)))

  -- As many calls as there are nodes, from any value of the counter that leaves room for them, choose
  -- each node of the list once: in its order, from the position of the counter on, and round.
  pub turns-rotation :
      (i : ℕ)
      → 0 < length nodes
      → i + length nodes ≤ 2 ^ 63
      → turns nodes i (length nodes)
        ≡ map chosen (drop (i % length nodes) nodes ++ take (i % length nodes) nodes)
  turns-rotation i n h =
      ap (turns nodes i) {x = length nodes} {y = ahead + r} (omega (arith, r_lt))
      ∙ turns-add ahead r i n (omega (arith, r_lt))
      ∙ ap₂ ◌++◌
          (turns-take ahead i r refl (omega (arith, r_lt)) (omega (arith, r_lt)) n
            ∙ ap (map chosen) (take_all ahead (drop r nodes) (omega (arith, length-drop r nodes))))
          (turns-take r (i + ahead) 0 wrapped (omega (arith, r_lt)) (omega (arith, r_lt)) n)
      ∙ sym (map-append chosen (drop r nodes) (take r nodes))
    where
      r : ℕ
      r = i % length nodes

      ahead : ℕ
      ahead = length nodes - r

      r_lt : r < length nodes
      r_lt = mod-lt i n

      wrapped : (i + ahead) % length nodes ≡ 0
      wrapped =
          sym (mod-add-mod i (length nodes) ahead)
          ∙ ap (λ j. j % length nodes) {x = r + ahead} {y = 0 + length nodes} (omega (arith, r_lt))
          ∙ add-mod_right 0 (length nodes)
          ∙ zero-mod (length nodes)
