-- ===== src/Examples/Services.antt =====
-- The registry (registry, common/util/registry) and the selector on small inputs.
use realmicro.Common.{
  ◌%◌, Text, codes, List, [], ◌∷◌, ◌++◌, true, false, ◌&&◌, ◌||◌, none, some, teq, pos, ◌≡◌, refl,
  map, take, drop, arith, if◌then◌else◌, lookup, insert,
}
use realmicro.Registry.{Node, Service}
use realmicro.Registry.Memory.{
  MemNode, MemRegistry, update, stamp, is_expired, register, deregister, ttl_prune,
}
use realmicro.Registry.Memory.Nodes.{node_at, has_id, deregister-node_at, ttl_prune-node_at}
use realmicro.Registry.Memory.Registering.{Registered, register-Registered}
use realmicro.Registry.Util.{add_nodes, remove}
use realmicro.Registry.Util.Sets.{IsUnique, add_nodes-IsUnique, remaining, remove-remaining}
use realmicro.Registry.Cache.{RegistryCache, answered, failed, deleted, watch_event}
use realmicro.Registry.Cache.Events.{Tells, kept, watch_event-Tells}
use realmicro.Selector.{chosen, filter_version, all_nodes}
use realmicro.Selector.Default.{
  RegistrySelector, with_filter, next, err_none_available, err_registry, new_selector, select_next,
}
use realmicro.Selector.Turns.{turns, turns-rotation}

abbrev a_node : Text → Node
a_node id = record {
  id = id;
  address = codes "10.0.0.1:80";
  port = pos 0;
  metadata = some ((codes "zone", codes "x") ∷ []);
}

abbrev service_with : List Node → Service
service_with nodes = record {
  name = codes "notes";
  version = codes "1";
  metadata = [];
  endpoints = [];
  nodes = nodes;
}

abbrev empty_registry : MemRegistry
empty_registry = record { records = [] }

abbrev two_nodes : List Node
two_nodes = a_node (codes "a") ∷ (a_node (codes "b") ∷ [])

-- Two nodes with ten ticks to live, seen at 100.
abbrev notes_registry : MemRegistry
notes_registry = record {
  records =
      (
        codes "notes",
        (
          codes "1",
          record {
            name = codes "notes";
            version = codes "1";
            metadata = [];
            nodes =
                (codes "a", stamp (a_node (codes "a")) 10 100)
                ∷ ((codes "b", stamp (a_node (codes "b")) 10 100) ∷ []);
            endpoints = [];
          },
        )
            ∷ [],
      )
      ∷ [];
}

register_two :
    register (service_with two_nodes) 10 100 empty_registry
    ≡ some (notes_registry, some (update (service_with two_nodes)))
unfolding register lookup insert teq
register_two = refl

register-Registered_example : Registered (service_with two_nodes) 20 105 notes_registry
register-Registered_example = register-Registered (service_with two_nodes) 20 105 notes_registry

deregister-node_at_example :
    node_at
      (codes "notes")
      (codes "1")
      (codes "a")
      (deregister (service_with (a_node (codes "b") ∷ [])) notes_registry).0
    ≡ (if teq (codes "notes") (codes "notes")
          && (teq (codes "1") (codes "1") && has_id (codes "a") (a_node (codes "b") ∷ []))
        then none
        else node_at (codes "notes") (codes "1") (codes "a") notes_registry)
deregister-node_at_example =
    deregister-node_at (service_with (a_node (codes "b") ∷ [])) notes_registry (codes "notes")
      (codes "1") (codes "a")

ttl_prune-node_at_example :
    ((x : MemNode)
      → node_at (codes "notes") (codes "1") (codes "a") notes_registry ≡ some x
      → is_expired 111 x ≡ false
      → node_at (codes "notes") (codes "1") (codes "a") (ttl_prune 111 notes_registry) ≡ some x)
    × ((x : MemNode)
        → node_at (codes "notes") (codes "1") (codes "a") (ttl_prune 111 notes_registry) ≡ some x
        → is_expired 111 x ≡ false)
ttl_prune-node_at_example =
    ttl_prune-node_at 111 notes_registry (codes "notes") (codes "1") (codes "a")

add_nodes-IsUnique_example :
    IsUnique (add_nodes (a_node (codes "c") ∷ (a_node (codes "a") ∷ [])) two_nodes)
    × ((i : Text)
        → has_id i (add_nodes (a_node (codes "c") ∷ (a_node (codes "a") ∷ [])) two_nodes)
          ≡ (has_id i two_nodes || has_id i (a_node (codes "c") ∷ (a_node (codes "a") ∷ []))))
unfolding teq
add_nodes-IsUnique_example =
    add_nodes-IsUnique (a_node (codes "c") ∷ (a_node (codes "a") ∷ [])) two_nodes (refl, (refl, tt))

remove-remaining_example :
    remove (service_with two_nodes ∷ []) (service_with (a_node (codes "a") ∷ []) ∷ [])
    ≡ remaining (service_with two_nodes ∷ []) (service_with (a_node (codes "a") ∷ []) ∷ [])
remove-remaining_example =
    remove-remaining (service_with two_nodes ∷ []) (service_with (a_node (codes "a") ∷ []) ∷ [])

turns-rotation_example :
    turns two_nodes 7 2 ≡ map chosen (drop (7 % 2) two_nodes ++ take (7 % 2) two_nodes)
turns-rotation_example = turns-rotation two_nodes 7 (omega arith) (omega arith)

-- A cache that holds the two nodes after an error of the registry.
abbrev notes_cache : RegistryCache
notes_cache = record {
  ttl = pos 60;
  status = true;
  cache = (codes "notes", service_with two_nodes ∷ []) ∷ [];
  ttls = (codes "notes", pos 160) ∷ [];
  watched = (codes "notes", true) ∷ [];
}

-- Both nodes are deleted, and with them the name.
watch_event_lem :
    kept (codes "notes") (watch_event 105 deleted (service_with two_nodes) notes_cache) ≡ []
unfolding watch_event lookup teq
watch_event_lem = refl

watch_event-Tells_example :
    Tells deleted (service_with (a_node (codes "a") ∷ [])) (service_with two_nodes ∷ []) (
      kept
        (codes "notes")
        (watch_event 105 deleted (service_with (a_node (codes "a") ∷ [])) notes_cache))
unfolding lookup teq
watch_event-Tells_example =
    watch_event-Tells 105 deleted (service_with (a_node (codes "a") ∷ [])) true
      (service_with two_nodes ∷ []) notes_cache refl refl refl (refl, (refl, tt))

-- A new selector over a registry that answers, then one that fails once the answer is stale.
abbrev fresh : RegistrySelector (List Node) (List Node)
fresh = new_selector all_nodes [] []

abbrev after_answer : RegistrySelector (List Node) (List Node)
after_answer = (select_next 0 (answered (service_with two_nodes ∷ [])) (codes "notes") [] fresh).0

-- The stale answer is used while the registry fails, and nothing is left by a filter for version 2.
select_next_lem :
    ((select_next 0 (failed (codes "down")) (codes "notes") [] fresh).1
      ≡ err_registry (codes "down"))
    × ((select_next 60000000001 (failed (codes "down")) (codes "notes") [] after_answer).1
        ≡ next two_nodes)
    × ((select_next 1
          (failed (codes "down"))
          (codes "notes")
          (with_filter (filter_version (codes "2") ∷ []) ∷ [])
          after_answer).1
        ≡ err_none_available)
unfolding select_next new_selector all_nodes filter_version teq
select_next_lem = (refl, refl, refl)
