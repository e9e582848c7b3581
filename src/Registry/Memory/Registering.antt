-- ===== src/Registry/Memory/Registering.antt =====
-- What `Register` does to the nodes of the registry in memory (registry/memory.go).
use realmicro.Common.{
  ℕ, Text, [], true, ◌||◌, Option, none, some, teq, teq_iff, teq_refl, Map, lookup, insert,
  lookup-insert, if◌then◌else◌, All, arith, ◌≡◌, refl, sym, ap, ◌∙◌, Bool-cases, Option-cases, inl,
  inr,
}
use realmicro.Registry.{Service}
use realmicro.Registry.Memory.{
  MemNode, Record, MemRegistry, Event, update, service_to_record, found_or_empty, add_nodes,
  refresh, set_nodes, refreshed, register_again, register,
}
use realmicro.Registry.Memory.Updates.{
  is_found, HasMetadata, SameNode, add_nodes-keeps, add_nodes-known, add_nodes-found, Refreshed,
  refresh-Refreshed, record_nodes-found,
}
use realmicro.Registry.Memory.Nodes.{node_in, node_of, node_at, has_id}

-- A record is stored for the name and the version of a service.
module _ (s : Service) (m : MemRegistry) (r : Record) where
  versions : Map Record
  versions = found_or_empty (lookup s.name m.records)

  stored : MemRegistry
  stored = record m { records = insert s.name (insert s.version r versions) m.records }

  node_of-versions :
      (v i : Text) → node_of v i (lookup s.name m.records) ≡ node_in i (lookup v versions)
  unfolding versions
  node_of-versions v i = go (lookup s.name m.records)
    where
      go : (o : Option (Map Record)) → node_of v i o ≡ node_in i (lookup v (found_or_empty o))
      go none = unfold lookup in refl
      go (some vs) = refl

  stored-node_at :
      (name v i : Text)
      → node_at name v i stored ≡ (
          if teq s.name name
          then if teq s.version v then lookup i r.nodes else node_of v i (lookup name m.records)
          else node_of v i (lookup name m.records))
  unfolding stored node_at
  stored-node_at name v i =
      rw (lookup-insert s.name name (insert s.version r versions) m.records)
        (elim (Bool-cases (teq s.name name)) [
          | inl same ↦ rw same (
              rw
                (
                  lookup-insert s.version v r versions,
                  sym (ap (λ k. lookup k m.records) ((teq_iff s.name name).0 same)),
                  node_of-versions v i,
                )
                (elim (Bool-cases (teq s.version v)) [
                  | inl match ↦ rw match refl
                  | inr other ↦ rw other refl
                ]))
          | inr other ↦ rw other refl
        ])

  stored-SameNode :
      ((i : Text) (x : MemNode)
        → node_in i (lookup s.version versions) ≡ some x
        → SameNode x (lookup i r.nodes))
      → (name v i : Text) (x : MemNode) → node_at name v i m ≡ some x
      → SameNode x (node_at name v i stored)
  unfolding node_at
  stored-SameNode h name v i x e =
      rw (stored-node_at name v i) (elim (Bool-cases (teq s.name name)) [
        | inr other ↦ rw other (x, e, refl)
        | inl same ↦ rw same (elim (Bool-cases (teq s.version v)) [
          | inr other ↦ rw other (x, e, refl)
          | inl match ↦ rw match (h i x (here same match))
        ])
      ])
    where
      here :
          teq s.name name ≡ true
          → teq s.version v ≡ true
          → node_in i (lookup s.version versions) ≡ some x
      here same match =
          ap (λ k. node_in i (lookup k versions)) ((teq_iff s.version v).0 match)
          ∙ sym (node_of-versions v i)
          ∙ ap (λ k. node_of v i (lookup k m.records)) ((teq_iff s.name name).0 same)
          ∙ e

-- What a call of `Register` comes to.
pub record Registered (s : Service) (ttl now : ℕ) (m : MemRegistry) : Type 0 where
  pub after : MemRegistry
  pub event : Option Event
  pub register_eq : register s ttl now m ≡ some (after, event)
  pub present :
      All HasMetadata s.nodes
      → (i : Text) → has_id i s.nodes ≡ true
      → is_found (node_at s.name s.version i after) ≡ true
  pub kept :
      (name version i : Text) (x : MemNode)
      → node_at name version i m ≡ some x
      → SameNode x (node_at name version i after)

register_new :
    (s : Service) (ttl now : ℕ) (m : MemRegistry)
    → lookup s.version (found_or_empty (lookup s.name m.records)) ≡ none
    → register s ttl now m ≡ some (stored s m (service_to_record s ttl now), some (update s))
unfolding register stored versions
register_new s ttl now m e = rw (e, register) refl

register_known :
    (s : Service) (ttl now : ℕ) (m : MemRegistry) (r : Record)
    → lookup s.version (found_or_empty (lookup s.name m.records)) ≡ some r
    → register s ttl now m ≡ register_again s ttl now (found_or_empty (lookup s.name m.records)) r m
unfolding register
register_known s ttl now m r e = rw (e, register) refl

register_again_lem :
    (s : Service) (ttl now : ℕ) (vs : Map Record) (r : Record) (m : MemRegistry)
    → register_again s ttl now vs r m ≡ (
        if (add_nodes s.nodes ttl now r.nodes).1
        then some (
          set_nodes m s.name s.version vs r (add_nodes s.nodes ttl now r.nodes).0,
          some (update s),
        )
        else refreshed m s.name s.version vs r
            (refresh s.nodes ttl now (add_nodes s.nodes ttl now r.nodes).0))
unfolding register_again
register_again_lem s ttl now vs r m = refl

module _ (s : Service) (ttl now : ℕ) (m : MemRegistry) where
  stored-found :
      (r : Record) (i : Text)
      → is_found (lookup i r.nodes) ≡ true
      → is_found (node_at s.name s.version i (stored s m r)) ≡ true
  stored-found r i h =
      rw (stored-node_at s m r s.name s.version i, teq_refl s.name, teq_refl s.version) h

  new_version-Registered :
      lookup s.version (versions s m (service_to_record s ttl now)) ≡ none → Registered s ttl now m
  unfolding versions
  new_version-Registered e = record {
    after = stored s m new;
    event = some (update s);
    register_eq = register_new s ttl now m e;
    present = λ _ i h. stored-found new i (
        unfold service_to_record in
        (record_nodes-found s.nodes ttl now i [] ∙ ap (λ b. b || is_found (lookup i [])) h));
    kept = stored-SameNode s m new (λ i x q. absurd (ground (arith, rw e at q)));
  }
    where
      new : Record
      new = service_to_record s ttl now

  again-Registered :
      (r : Record) → lookup s.version (versions s m r) ≡ some r → Registered s ttl now m
  unfolding versions
  again-Registered r e = elim (Bool-cases (add_nodes s.nodes ttl now r.nodes).1) [
    | inl added ↦ record {
      after = stored s m grown;
      event = some (update s);
      register_eq = again ∙ rw added (unfold stored in refl);
      present = λ meta i h. stored-found grown i (add_nodes-found ttl now s.nodes i r.nodes meta h);
      kept = stored-SameNode s m grown (λ i x q.
          (x, add_nodes-keeps ttl now s.nodes i r.nodes x (sym (ap (node_in i) e) ∙ q), refl));
    }
    | inr known ↦
        let (still, all_known) = add_nodes-known ttl now s.nodes r.nodes known in
        let fresh : Refreshed ttl now s.nodes r.nodes =
          refresh-Refreshed ttl now s.nodes r.nodes all_known in
        record {
          after = stored s m (record r { nodes = fresh.after });
          event = none;
          register_eq = again ∙ rw (known, still, fresh.refresh_eq) (unfold stored in refl);
          present = λ meta i h.
              stored-found (record r { nodes = fresh.after }) i (fresh.found_eq i ∙ all_known i h);
          kept =
              stored-SameNode s m (record r { nodes = fresh.after })
                (λ i x q. fresh.same i x (sym (ap (node_in i) e) ∙ q));
        }
  ]
    where
      grown : Record
      grown = record r { nodes = (add_nodes s.nodes ttl now r.nodes).0 }

      again : register s ttl now m ≡ (
          if (add_nodes s.nodes ttl now r.nodes).1
          then some (
            set_nodes m s.name s.version (found_or_empty (lookup s.name m.records)) r grown.nodes,
            some (update s),
          )
          else refreshed m s.name s.version
              (found_or_empty (lookup s.name m.records))
              r
              (refresh s.nodes ttl now grown.nodes))
      again =
          register_known s ttl now m r e
          ∙ register_again_lem s ttl now (found_or_empty (lookup s.name m.records)) r m

-- `Register` never panics. Afterwards each node of the registry is still there, at most with a new
-- time stamp and time to live, and so are the nodes of the service, if each has some metadata.
pub register-Registered : (s : Service) (ttl now : ℕ) (m : MemRegistry) → Registered s ttl now m
register-Registered s ttl now m =
    elim (Option-cases (lookup s.version (found_or_empty (lookup s.name m.records)))) [
      | inl new ↦ new_version-Registered s ttl now m (unfold versions in new)
      | inr (r, known) ↦ again-Registered s ttl now m r (unfold versions in known)
    ]
