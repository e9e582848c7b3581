-- ===== src/Registry/Memory/Updates.antt =====
-- The loops of `Register` over the nodes of a version (registry/memory.go).
use mathlib.Core.Option.{some-injective}
use realmicro.Common.{
  ℕ, Text, List, [], ◌∷◌, Bool, true, false, ◌||◌, Option, none, some, teq, teq_iff, teq_refl, Map,
  lookup, insert, lookup-insert, All, arith, ◌≡◌, ◌≢◌, refl, sym, ap, ◌∙◌, Bool-cases, Option-cases,
  inl, inr, ◌⊎◌,
}
use realmicro.Registry.{Node}
use realmicro.Registry.Memory.{
  MemNode, stamp, copy_node, record_nodes, map_or_empty, add_node, add_nodes, refresh,
}
use realmicro.Registry.Memory.Nodes.{has_id}

abbrev pub is_found : Option MemNode → Bool
is_found none = false
is_found (some n) = true

-- A node with a key in its metadata.
abbrev pub HasMetadata : Node → Type 0
HasMetadata n = map_or_empty n.metadata ≢ []

-- The same node, perhaps with a new stamp.
abbrev pub SameNode : MemNode → Option MemNode → Type 0
SameNode x o = (y : MemNode) × (o ≡ some y) × (y.node ≡ x.node)

found-insert :
    (k i : Text) (n : MemNode) (m : Map MemNode)
    → is_found (lookup i (insert k n m)) ≡ (teq k i || is_found (lookup i m))
found-insert k i n m =
    rw (lookup-insert k i n m)
      (elim (Bool-cases (teq k i)) [ inl same ↦ rw same refl | inr other ↦ rw other refl ])

pub record_nodes-found :
    (ns : List Node) (ttl now : ℕ) (i : Text) (m : Map MemNode)
    → is_found (lookup i (record_nodes ns ttl now m)) ≡ (has_id i ns || is_found (lookup i m))
unfolding record_nodes
record_nodes-found [] ttl now i m = refl
record_nodes-found (n ∷ ns) ttl now i m = ground (
  arith,
  record_nodes-found ns ttl now i (insert n.id (stamp n ttl now) m),
  found-insert n.id i (stamp n ttl now) m,
)

module _ (ttl now : ℕ) where
  add_node-found :
      (n : Node) (i : Text) (m : Map MemNode)
      → HasMetadata n
      → is_found (lookup i (add_node n ttl now (map_or_empty n.metadata) m))
        ≡ (teq n.id i || is_found (lookup i m))
  add_node-found n i m h = go (map_or_empty n.metadata) h
    where
      go :
          (kvs : Map Text)
          → kvs ≢ []
          → is_found (lookup i (add_node n ttl now kvs m)) ≡ (teq n.id i || is_found (lookup i m))
      go [] h = absurd (h refl)
      go (kv ∷ kvs) h = found-insert n.id i _ m

  -- A node that is stored under a new id changes no other.
  add_node-keeps :
      (n : Node) (kvs : Map Text) (i : Text) (m : Map MemNode) (x : MemNode)
      → lookup n.id m ≡ none
      → lookup i m ≡ some x
      → lookup i (add_node n ttl now kvs m) ≡ some x
  add_node-keeps n [] i m x new e = e
  add_node-keeps n (kv ∷ kvs) i m x new e =
      rw
        (lookup-insert n.id i (stamp (record (copy_node n) { metadata = some (kv ∷ kvs) }) ttl now)
          m)
        (elim (Bool-cases (teq n.id i)) [
          | inl same ↦
              absurd (ground (arith, new, e, ap (λ k. lookup k m) ((teq_iff n.id i).0 same)))
          | inr other ↦ rw other e
        ])

  pub add_nodes-keeps :
      (ns : List Node) (i : Text) (m : Map MemNode) (x : MemNode)
      → lookup i m ≡ some x
      → lookup i (add_nodes ns ttl now m).0 ≡ some x
  unfolding add_nodes
  add_nodes-keeps [] i m x e = e
  add_nodes-keeps (n ∷ ns) i m x e = go (lookup n.id m) refl (λ m1. add_nodes-keeps ns i m1 x)
    where
      go :
          (o : Option MemNode)
          → lookup n.id m ≡ o
          → ((m1 : Map MemNode)
              → lookup i m1 ≡ some x
              → lookup i (add_nodes ns ttl now m1).0 ≡ some x)
          → lookup i (add_nodes (n ∷ ns) ttl now m).0 ≡ some x
      go (some known) q ih = rw (q, add_nodes) (ih m e)
      go none q ih =
          rw (q, add_nodes)
            (ih (add_node n ttl now (map_or_empty n.metadata) m)
              (add_node-keeps n (map_or_empty n.metadata) i m x q e))

  -- Where no node is new, the map is as it was, and every node is there.
  pub add_nodes-known :
      (ns : List Node) (m : Map MemNode)
      → (add_nodes ns ttl now m).1 ≡ false
      → ((add_nodes ns ttl now m).0 ≡ m)
        × ((i : Text) → has_id i ns ≡ true → is_found (lookup i m) ≡ true)
  unfolding add_nodes
  add_nodes-known [] m e = (refl, λ i h. absurd (ground arith))
  add_nodes-known (n ∷ ns) m e = go (lookup n.id m) refl (add_nodes-known ns m)
    where
      go :
          (o : Option MemNode)
          → lookup n.id m ≡ o
          → ((add_nodes ns ttl now m).1 ≡ false
              → ((add_nodes ns ttl now m).0 ≡ m)
                × ((i : Text) → has_id i ns ≡ true → is_found (lookup i m) ≡ true))
          → ((add_nodes (n ∷ ns) ttl now m).0 ≡ m)
            × ((i : Text) → has_id i (n ∷ ns) ≡ true → is_found (lookup i m) ≡ true)
      go none q ih = absurd (ground (arith, rw (q, add_nodes) at e))
      go (some known) q ih =
          let (same_map, all_known) = ih (rw (q, add_nodes) at e) in
          (
            rw (q, add_nodes) same_map,
            λ i h. elim (Bool-cases (teq n.id i)) [
              | inl same ↦ ap is_found (sym (ap (λ k. lookup k m) ((teq_iff n.id i).0 same)) ∙ q)
              | inr other ↦ all_known i (rw other at h)
            ],
          )

  found_kept :
      (ns : List Node) (i : Text) (m : Map MemNode)
      → is_found (lookup i m) ≡ true
      → is_found (lookup i (add_nodes ns ttl now m).0) ≡ true
  found_kept ns i m h = elim (Option-cases (lookup i m)) [
    | inl missing ↦ absurd (ground (arith, rw missing at h))
    | inr (x, e) ↦ rw (add_nodes-keeps ns i m x e) refl
  ]

  pub add_nodes-found :
      (ns : List Node) (i : Text) (m : Map MemNode)
      → All HasMetadata ns
      → has_id i ns ≡ true
      → is_found (lookup i (add_nodes ns ttl now m).0) ≡ true
  unfolding add_nodes
  add_nodes-found [] i m a h = absurd (ground arith)
  add_nodes-found (n ∷ ns) i m a h =
      go (lookup n.id m) refl (Bool-cases (teq n.id i)) (λ m1. add_nodes-found ns i m1 a.1)
    where
      go :
          (o : Option MemNode)
          → lookup n.id m ≡ o
          → (teq n.id i ≡ true) ⊎ (teq n.id i ≡ false)
          → ((m1 : Map MemNode)
              → has_id i ns ≡ true
              → is_found (lookup i (add_nodes ns ttl now m1).0) ≡ true)
          → is_found (lookup i (add_nodes (n ∷ ns) ttl now m).0) ≡ true
      go (some known) q (inl same) ih =
          rw (q, add_nodes)
            (found_kept ns i m
              (ap is_found (sym (ap (λ k. lookup k m) ((teq_iff n.id i).0 same)) ∙ q)))
      go (some known) q (inr other) ih = rw (q, add_nodes) (ih m (rw other at h))
      go none q (inl same) ih =
          rw (q, add_nodes)
            (found_kept ns i (add_node n ttl now (map_or_empty n.metadata) m)
              (add_node-found n i m a.0 ∙ ap (λ b. b || is_found (lookup i m)) same))
      go none q (inr other) ih =
          rw (q, add_nodes) (ih (add_node n ttl now (map_or_empty n.metadata) m) (rw other at h))

  -- Where every node is there, the refresh finds each of them, and changes stamps alone.
  pub record Refreshed (ns : List Node) (m : Map MemNode) : Type 0 where
    pub after : Map MemNode
    pub refresh_eq : refresh ns ttl now m ≡ some after
    pub found_eq : (i : Text) → is_found (lookup i after) ≡ is_found (lookup i m)
    pub same : (i : Text) (x : MemNode) → lookup i m ≡ some x → SameNode x (lookup i after)

  insert-SameNode :
      (n : Node) (known : MemNode) (m : Map MemNode) (i : Text) (x : MemNode)
      → lookup n.id m ≡ some known
      → lookup i m ≡ some x
      → SameNode x (lookup i (insert n.id (stamp known.node ttl now) m))
  insert-SameNode n known m i x q e =
      rw (lookup-insert n.id i (stamp known.node ttl now) m) (elim (Bool-cases (teq n.id i)) [
        | inl match ↦ rw match (
          stamp known.node ttl now,
          refl,
          ap (λ (y : MemNode). y.node)
              (some-injective _ _ (sym q ∙ ap (λ k. lookup k m) ((teq_iff n.id i).0 match) ∙ e)),
        )
        | inr other ↦ rw other (x, e, refl)
      ])

  pub refresh-Refreshed :
      (ns : List Node) (m : Map MemNode)
      → ((i : Text) → has_id i ns ≡ true → is_found (lookup i m) ≡ true)
      → Refreshed ns m
  unfolding refresh
  refresh-Refreshed [] m known = record {
    after = m;
    refresh_eq = refl;
    found_eq = λ i. refl;
    same = λ i x e. (x, e, refl);
  }
  refresh-Refreshed (n ∷ ns) m known = go (lookup n.id m) refl (λ m1. refresh-Refreshed ns m1)
    where
      known_here : is_found (lookup n.id m) ≡ true
      known_here = known n.id (rw (teq_refl n.id) refl)

      go :
          (o : Option MemNode)
          → lookup n.id m ≡ o
          → ((m1 : Map MemNode)
              → ((i : Text) → has_id i ns ≡ true → is_found (lookup i m1) ≡ true)
              → Refreshed ns m1)
          → Refreshed (n ∷ ns) m
      go none q ih = absurd (ground (arith, rw q at known_here))
      go (some x0) q ih = record {
        after = rest.after;
        refresh_eq = rw (q, refresh) rest.refresh_eq;
        found_eq = λ i. rest.found_eq i ∙ still i;
        same = λ i x e.
            let (y, y_eq, y_node) = insert-SameNode n x0 m i x q e in
            let (z, z_eq, z_node) = rest.same i y y_eq in (z, z_eq, z_node ∙ y_node);
      }
        where
          m1 : Map MemNode
          m1 = insert n.id (stamp x0.node ttl now) m

          still : (i : Text) → is_found (lookup i m1) ≡ is_found (lookup i m)
          still i = found-insert n.id i (stamp x0.node ttl now) m ∙ elim (Bool-cases (teq n.id i)) [
            | inl match ↦
                rw match
                  (sym (ap is_found (sym (ap (λ k. lookup k m) ((teq_iff n.id i).0 match)) ∙ q)))
            | inr other ↦ rw other refl
          ]

          rest : Refreshed ns m1
          rest = ih m1 (λ i h. still i ∙ known i (ground (arith, h)))
