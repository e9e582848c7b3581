-- ===== src/Streams.antt =====
-- common/util/stream/stream.go: the operations that read a stream in order. A stream is the list of
-- the items that its channel delivers before it is closed; the goroutine that copies items to the next
-- channel is the loop that it runs. `none` is a panic.

pub mod Cut
pub mod Keys
pub mod Turned
pub mod Walk
use realmicro.Common.{
  ℕ, zero, suc, ◌+◌, ◌-◌, ◌/◌, List, [], ◌∷◌, ◌++◌, Bool, true, false, not, Option, none, some, ℤ,
  pos, negsuc, ltb, ◌==◌, length, get_elem?, set, any_of, if◌then◌else◌,
}
use realmicro.Collection.FixedRing.{Ring, new, take_all}
use realmicro.Collection.FixedRing.Latest.{add_all}

module _ {ℓ} {A : Type ℓ} where
  unfoldable pub all_mach : (A → Bool) → List A → Bool
  all_mach predicate [] = true
  all_mach predicate (item ∷ s) =
      let rest = all_mach predicate s in if not (predicate item) then false else rest

  unfoldable pub any_mach : (A → Bool) → List A → Bool
  any_mach predicate [] = false
  any_mach predicate (item ∷ s) =
      let rest = any_mach predicate s in if predicate item then true else rest

  unfoldable pub none_match : (A → Bool) → List A → Bool
  none_match predicate [] = true
  none_match predicate (item ∷ s) =
      let rest = none_match predicate s in if predicate item then false else rest

  unfoldable pub count_loop : ℕ → List A → ℕ
  count_loop count [] = count
  count_loop count (item ∷ s) = count_loop (count + 1) s

  unfoldable pub count : List A → ℕ
  unfolding count_loop
  count s = count_loop 0 s

  unfoldable pub first : List A → Option A
  first [] = none
  first (item ∷ s) = some item

  unfoldable pub last_loop : Option A → List A → Option A
  last_loop item [] = item
  last_loop item (x ∷ s) = last_loop (some x) s

  unfoldable pub last : List A → Option A
  unfolding last_loop
  last s = last_loop none s

  -- The loop of `Head` with `n` from 1 on: at 0 the new channel is closed, and the rest is drained.
  unfoldable pub head_loop : ℕ → List A → List A
  head_loop n [] = []
  head_loop n (item ∷ s) =
      let rest = head_loop (n - 1) s in if n - 1 == 0 then item ∷ [] else item ∷ rest

  unfoldable pub head : ℤ → List A → Option (List A)
  unfolding head_loop
  head (negsuc n) s = none
  head (pos zero) s = none
  head (pos (suc n)) s = some (head_loop (suc n) s)

  -- The loop of `Skip`; below 0 the counter is not read again, and it stays at 0 here.
  unfoldable pub skip_loop : ℕ → List A → List A
  skip_loop n [] = []
  skip_loop zero (item ∷ s) = item ∷ skip_loop zero s
  skip_loop (suc n) (item ∷ s) = skip_loop n s

  unfoldable pub skip : ℤ → List A → Option (List A)
  unfolding skip_loop
  skip (negsuc n) s = none
  skip (pos zero) s = some s
  skip (pos (suc n)) s = some (skip_loop (suc n) s)

  -- What `Split` sends after its loop: a nil chunk is not sent.
  abbrev pub last_chunk : List A → List (List A)
  last_chunk [] = []
  last_chunk (x ∷ xs) = (x ∷ xs) ∷ []

  unfoldable pub split_loop : ℕ → List A → List A → List (List A)
  split_loop n chunk [] = last_chunk chunk
  split_loop n chunk (item ∷ s) =
      let grown = chunk ++ (item ∷ []) in
      let sent = grown ∷ split_loop n [] s in
      let kept = split_loop n grown s in if length grown == n then sent else kept

  unfoldable pub split : ℤ → List A → Option (List (List A))
  unfolding split_loop
  split (negsuc n) s = none
  split (pos zero) s = none
  split (pos (suc n)) s = some (split_loop (suc n) [] s)

  -- `ring.Take()` after the items were added to the ring.
  abbrev pub take_added : A → Option (Ring A) → Option (List A)
  take_added nil none = none
  take_added nil (some r) = some (take_all nil r)

  abbrev pub tail_with : A → Option (Ring A) → List A → Option (List A)
  tail_with nil none s = none
  tail_with nil (some r) s = take_added nil (add_all nil s r)

  -- `Tail`, over a ring of ring.go with the empty value `nil`.
  unfoldable pub tail : A → ℤ → List A → Option (List A)
  unfolding new add_all take_all
  tail nil n s = tail_with nil (new nil n) s

  abbrev pub swap_with : List A → ℕ → ℕ → Option A → Option A → List A
  swap_with items i j (some x) (some y) = set (set items i y) j x
  swap_with items i j none y = items
  swap_with items i j (some x) none = items

  -- items[i], items[opp] = items[opp], items[i]; both are in range in `Reverse`.
  unfoldable pub swap : List A → ℕ → ℕ → List A
  swap items i j = swap_with items i j (get_elem? items i) (get_elem? items j)

  -- The loop of `Reverse` from i = k - 1 down to 0.
  unfoldable pub reverse_loop : ℕ → List A → List A
  unfolding swap
  reverse_loop zero items = items
  reverse_loop (suc i) items = reverse_loop i (swap items i (length items - 1 - i))

  unfoldable pub reverse_items : List A → List A
  unfolding reverse_loop
  reverse_items s = reverse_loop (length s / 2) s

  -- `Merge`: one item, the slice of all.
  unfoldable pub merge : List A → List (List A)
  merge s = s ∷ []

module _ {ℓ κ} {A : Type ℓ} {K : Type κ} (same : K → K → Bool) (key : A → K) where
  -- The loop of `Distinct` with the keys seen.
  unfoldable pub distinct_loop : List K → List A → List A
  distinct_loop keys [] = []
  distinct_loop keys (item ∷ s) =
      let repeated = distinct_loop keys s in
      let sent = item ∷ distinct_loop (key item ∷ keys) s in
      if not (any_of (same (key item)) keys) then sent else repeated

  unfoldable pub distinct : List A → List A
  unfolding distinct_loop
  distinct s = distinct_loop [] s

  -- groups[key] = append(groups[key], item)
  unfoldable pub add_to_group : K → A → List (K × List A) → List (K × List A)
  add_to_group k item [] = (k, item ∷ []) ∷ []
  add_to_group k item ((j, items) ∷ groups) =
      let rest = add_to_group k item groups in
      if same k j then (j, items ++ (item ∷ [])) ∷ groups else (j, items) ∷ rest

  unfoldable pub group_loop : List (K × List A) → List A → List (K × List A)
  unfolding add_to_group
  group_loop groups [] = groups
  group_loop groups (item ∷ s) = group_loop (add_to_group (key item) item groups) s

  -- The groups that `Group` sends, each with its key, in one of the orders in which Go ranges over them.
  unfoldable pub group : List A → List (K × List A)
  unfolding group_loop
  group s = group_loop [] s
