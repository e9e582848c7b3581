-- ===== src/Selector.antt =====
-- selector/filter.go and selector/strategy.go: which services a call may go to, and to which node.
pub mod Turns
pub mod Default
use realmicro.Common.{
  ℕ, zero, suc, ◌+◌, ◌%◌, Text, List, [], ◌∷◌, ◌++◌, Bool, true, false, Option, none, some, teq,
  if◌then◌else◌, any_of, select, Map, lookup, length, get_elem?, ◌==◌, ◌-◌, ◌^◌, ltb,
}
use realmicro.Registry.{Endpoint, Node, Service}

unfoldable pub filter_endpoint : Text → List Service → List Service
unfolding teq select
filter_endpoint name old =
    select (λ (s : Service). any_of (λ (ep : Endpoint). teq ep.name name) s.endpoints) old

-- node.Metadata[key], "" where it is missing
abbrev pub value_or_empty : Option Text → Text
value_or_empty none = []
value_or_empty (some v) = v

abbrev pub label_is : Text → Text → Option (Map Text) → Bool
label_is key val none = false
label_is key val (some metadata) = teq (value_or_empty (lookup key metadata)) val

unfoldable pub label_nodes : Text → Text → List Node → List Node
unfolding select lookup teq
label_nodes key val nodes = select (λ (n : Node). label_is key val n.metadata) nodes

abbrev pub with_nodes : Service → List Node → List Service → List Service
with_nodes s [] rest = rest
with_nodes s (n ∷ ns) rest = record s { nodes = n ∷ ns } ∷ rest

unfoldable pub filter_label : Text → Text → List Service → List Service
unfolding label_nodes
filter_label key val [] = []
filter_label key val (s ∷ ss) = with_nodes s (label_nodes key val s.nodes) (filter_label key val ss)

unfoldable pub filter_version : Text → List Service → List Service
unfolding teq select
filter_version version old = select (λ (s : Service). teq s.version version) old

-- The nodes of all services.
unfoldable pub all_nodes : List Service → List Node
all_nodes [] = []
all_nodes (s ∷ ss) = s.nodes ++ all_nodes ss

-- What a call of `Next` does: it gives a node or ErrNoneAvailable, or an index is out of range.
pub data Turn : Type 0 where
  chosen : Node → Turn
  none_available panic : Turn

abbrev pub turn_of : Option Node → Turn
turn_of none = panic
turn_of (some n) = chosen n

-- The function that `Random` returns, at a number drawn by `rand.Int`.
unfoldable pub random_next : List Node → ℕ → Turn
random_next nodes draw =
    if length nodes == 0 then none_available else turn_of (get_elem? nodes (draw % length nodes))

-- i % len(nodes) as an index, for an int of 64 bits in two's complement: a negative remainder is none.
abbrev pub index_of : ℕ → ℕ → Option ℕ
index_of i n =
    if ltb i (2 ^ 63) then some (i % n) else if (2 ^ 64 - i) % n == 0 then some 0 else none

abbrev pub node_at_index : List Node → Option ℕ → Turn
node_at_index nodes none = panic
node_at_index nodes (some k) = turn_of (get_elem? nodes k)

-- The function that `RoundRobin` returns, with its counter, which starts at a number drawn.
unfoldable pub round_robin_next : List Node → ℕ → Turn × ℕ
round_robin_next nodes i =
    if length nodes == 0
    then (none_available, i)
    else (node_at_index nodes (index_of i (length nodes)), (i + 1) % 2 ^ 64)
