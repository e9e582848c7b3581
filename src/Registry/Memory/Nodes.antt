-- ===== src/Registry/Memory/Nodes.antt =====
-- What `Deregister` and the pruning do to the nodes of the registry in memory (registry/memory.go).
use mathlib.Core.Option.{some-injective}
use realmicro.Common.{
  ℕ, Text, List, [], ◌∷◌, Bool, true, false, ◌&&◌, Option, none, some, teq, teq_iff, Map, lookup,
  delete, lookup-insert, lookup-delete, if◌then◌else◌, any_of, select, arith, ◌≡◌, refl, sym, ap,
  ◌∙◌, Bool-cases, inl, inr,
}
use realmicro.Registry.{Node, Service}
use realmicro.Registry.Memory.{
  MemNode, Record, MemRegistry, delete_nodes, put_record, delete_from, put_versions,
  deregister_from, deregister, is_expired, prune_nodes, prune_versions, prune_records, ttl_prune,
}

-- The node with an id in a version of a service.
abbrev pub node_in : Text → Option Record → Option MemNode
node_in i none = none
node_in i (some r) = lookup i r.nodes

abbrev pub node_of : Text → Text → Option (Map Record) → Option MemNode
node_of v i none = none
node_of v i (some vs) = node_in i (lookup v vs)

unfoldable pub node_at : Text → Text → Text → MemRegistry → Option MemNode
node_at name version i m = node_of version i (lookup name m.records)

abbrev pub has_id : Text → List Node → Bool
has_id i ns = any_of (λ (n : Node). teq n.id i) ns

delete_nodes-lookup :
    (ns : List Node) (i : Text) (m : Map MemNode)
    → lookup i (delete_nodes ns m) ≡ (if has_id i ns then none else lookup i m)
unfolding delete_nodes
delete_nodes-lookup [] i m = refl
delete_nodes-lookup (n ∷ ns) i m =
    ground (arith, delete_nodes-lookup ns i (delete n.id m), lookup-delete n.id i m)

-- A version is stored, or deleted where it has no node left: its nodes are those of the list.
put_record-node_in :
    (version v i : Text) (r : Record) (nodes : Map MemNode) (vs : Map Record)
    → node_in i (lookup v (put_record version r nodes vs))
      ≡ (if teq version v then lookup i nodes else node_in i (lookup v vs))
put_record-node_in version v i r [] vs =
    rw (lookup-delete version v vs) (elim (Bool-cases (teq version v)) [
      | inl same ↦ rw same (unfold lookup in refl)
      | inr other ↦ rw other refl
    ])
put_record-node_in version v i r (n ∷ ns) vs =
    rw (lookup-insert version v (record r { nodes = n ∷ ns }) vs)
      (elim (Bool-cases (teq version v)) [ inl same ↦ rw same refl | inr other ↦ rw other refl ])

delete_from-node_in :
    (ns : List Node) (version v i : Text) (vs : Map Record)
    → node_in i (lookup v (delete_from ns version (lookup version vs) vs))
      ≡ (if teq version v && has_id i ns then none else node_in i (lookup v vs))
delete_from-node_in ns version v i vs = go (lookup version vs) refl
  where
    same_version : (teq version v ≡ true) → lookup version vs ≡ lookup v vs
    same_version e = ap (λ k. lookup k vs) ((teq_iff version v).0 e)

    go :
        (o : Option Record)
        → lookup version vs ≡ o
        → node_in i (lookup v (delete_from ns version o vs))
          ≡ (if teq version v && has_id i ns then none else node_in i (lookup v vs))
    go none e = elim (Bool-cases (teq version v)) [
      | inl same ↦ rw same (rw (sym (same_version same), e) (ground arith))
      | inr other ↦ rw other refl
    ]
    go (some r) e =
        rw (put_record-node_in version v i r (delete_nodes ns r.nodes) vs)
          (elim (Bool-cases (teq version v)) [
            | inl same ↦
                rw same (rw (delete_nodes-lookup ns i r.nodes, sym (same_version same), e) refl)
            | inr other ↦ rw other refl
          ])

put_versions-node_of :
    (name n v i : Text) (vs : Map Record) (m : Map (Map Record))
    → node_of v i (lookup n (put_versions name vs m))
      ≡ (if teq name n then node_in i (lookup v vs) else node_of v i (lookup n m))
put_versions-node_of name n v i [] m = rw (lookup-delete name n m) (elim (Bool-cases (teq name n)) [
  | inl same ↦ rw same (unfold lookup in refl)
  | inr other ↦ rw other refl
])
put_versions-node_of name n v i (x ∷ xs) m =
    rw (lookup-insert name n (x ∷ xs) m)
      (elim (Bool-cases (teq name n)) [ inl same ↦ rw same refl | inr other ↦ rw other refl ])

-- `Deregister` removes exactly the nodes that the service names, from the version that it names: each
-- other node of the registry is found where it was.
pub deregister-node_at :
    (s : Service) (m : MemRegistry) (name version i : Text)
    → node_at name version i (deregister s m).0 ≡ (
        if teq s.name name && (teq s.version version && has_id i s.nodes)
        then none
        else node_at name version i m)
unfolding deregister node_at
deregister-node_at s m name version i = go (lookup s.name m.records) refl
  where
    same_name : (teq s.name name ≡ true) → lookup s.name m.records ≡ lookup name m.records
    same_name e = ap (λ k. lookup k m.records) ((teq_iff s.name name).0 e)

    go :
        (o : Option (Map Record))
        → lookup s.name m.records ≡ o
        → node_of version i (lookup name (deregister_from s o m).0.records) ≡ (
            if teq s.name name && (teq s.version version && has_id i s.nodes)
            then none
            else node_of version i (lookup name m.records))
    go none e = elim (Bool-cases (teq s.name name)) [
      | inl same ↦ rw same (rw (sym (same_name same), e) (ground arith))
      | inr other ↦ rw other refl
    ]
    go (some vs) e =
        rw
          (put_versions-node_of s.name name version i
            (delete_from s.nodes s.version (lookup s.version vs) vs) m.records)
          (elim (Bool-cases (teq s.name name)) [
            | inl same ↦ rw same (
                rw (delete_from-node_in s.nodes s.version version i vs, sym (same_name same), e)
                  refl)
            | inr other ↦ rw other refl
          ])

-- The two directions for one map of nodes.
Pruned : ℕ → Option MemNode → Option MemNode → Type 0
Pruned now before after =
    ((x : MemNode) → before ≡ some x → is_expired now x ≡ false → after ≡ some x)
    × ((x : MemNode) → after ≡ some x → is_expired now x ≡ false)

prune_nodes-Pruned :
    (now : ℕ) (i : Text) (m : Map MemNode) → Pruned now (lookup i m) (lookup i (prune_nodes now m))
unfolding Pruned prune_nodes lookup select
prune_nodes-Pruned now i [] = (λ x e _. absurd (ground arith), λ x e. absurd (ground arith))
prune_nodes-Pruned now i ((k, n) ∷ m) =
    let rest : Pruned now (lookup i m) (lookup i (prune_nodes now m)) =
      prune_nodes-Pruned now i m in
    elim (Bool-cases (is_expired now n)) [
      | inl old ↦ rw old (elim (Bool-cases (teq k i)) [
        | inl same ↦ rw same (
          λ x e fresh.
              absurd (ground (arith, old, fresh, ap (is_expired now) (some-injective _ _ e))),
          rest.1,
        )
        | inr other ↦ rw other rest
      ])
      | inr young ↦ rw young (elim (Bool-cases (teq k i)) [
        | inl same ↦
            rw same
              (λ x e fresh. e, λ x e. sym (ap (is_expired now) (some-injective _ _ e)) ∙ young)
        | inr other ↦ rw other rest
      ])
    ]

prune_versions-Pruned :
    (now : ℕ) (v i : Text) (vs : Map Record)
    → Pruned now (node_in i (lookup v vs)) (node_in i (lookup v (prune_versions now vs)))
unfolding prune_versions
prune_versions-Pruned now v i [] =
    unfold Pruned lookup in (λ x e _. absurd (ground arith), λ x e. absurd (ground arith))
prune_versions-Pruned now v i ((j, r) ∷ vs) = elim (Bool-cases (teq j v)) [
  | inl same ↦ unfold lookup in rw same (prune_nodes-Pruned now i r.nodes)
  | inr other ↦ go other (prune_versions-Pruned now v i vs)
]
  where
    go :
        teq j v ≡ false
        → Pruned now (node_in i (lookup v vs)) (node_in i (lookup v (prune_versions now vs)))
        → Pruned now
            (node_in i (lookup v ((j, r) ∷ vs)))
            (node_in i (lookup v (prune_versions now ((j, r) ∷ vs))))
    go other rest = unfold lookup in (rw other rest)

prune_records-Pruned :
    (now : ℕ) (name v i : Text) (m : Map (Map Record))
    → Pruned now (node_of v i (lookup name m)) (node_of v i (lookup name (prune_records now m)))
unfolding prune_records
prune_records-Pruned now name v i [] =
    unfold Pruned lookup in (λ x e _. absurd (ground arith), λ x e. absurd (ground arith))
prune_records-Pruned now name v i ((j, vs) ∷ m) = elim (Bool-cases (teq j name)) [
  | inl same ↦ unfold lookup in rw same (prune_versions-Pruned now v i vs)
  | inr other ↦ go other (prune_records-Pruned now name v i m)
]
  where
    go :
        teq j name ≡ false
        → Pruned now (node_of v i (lookup name m)) (node_of v i (lookup name (prune_records now m)))
        → Pruned now
            (node_of v i (lookup name ((j, vs) ∷ m)))
            (node_of v i (lookup name (prune_records now ((j, vs) ∷ m))))
    go other rest = unfold lookup in (rw other rest)

-- After a round of the pruning no node is found whose time to live has run out, and each node is found
-- that was found before and whose time has not.
pub ttl_prune-node_at :
    (now : ℕ) (m : MemRegistry) (name version i : Text)
    → ((x : MemNode)
        → node_at name version i m ≡ some x
        → is_expired now x ≡ false
        → node_at name version i (ttl_prune now m) ≡ some x)
      × ((x : MemNode)
          → node_at name version i (ttl_prune now m) ≡ some x
          → is_expired now x ≡ false)
unfolding ttl_prune node_at
ttl_prune-node_at now m name version i =
    unfold Pruned in prune_records-Pruned now name version i m.records
