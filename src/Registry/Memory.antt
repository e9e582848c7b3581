-- ===== src/Registry/Memory.antt =====
-- registry/memory.go and registry/memory_util.go: the registry in memory. An operation that holds the
-- lock is one step; the event that it sends to the watchers is part of its result. It reads the
-- clock once here, for all the nodes that it stamps.
pub mod Nodes
pub mod Updates
pub mod Registering
use realmicro.Common.{
  ℕ, ◌-◌, Text, List, [], ◌∷◌, ◌++◌, Bool, true, false, ◌&&◌, ◌||◌, not, Option, none, some, ◌==◌,
  ltb, teq, map, Map, lookup, insert, delete, if◌then◌else◌, pos, select,
}
use realmicro.Registry.{Value, value, Values, no_values, Endpoint, Node, Service}

-- `node`
pub record MemNode : Type 0 where
  pub node : Node
  pub ttl : ℕ
  pub last_seen : ℕ

pub record Record : Type 0 where
  pub name : Text
  pub version : Text
  pub metadata : Map Text
  pub nodes : Map MemNode
  pub endpoints : List Endpoint

-- `memRegistry`: m.records[name][version]
pub record MemRegistry : Type 0 where
  pub records : Map (Map Record)

-- The actions of a `Result` that is sent to the watchers.
pub data Event : Type 0 where
  update delete_event : Service → Event

abbrev pub stamp : Node → ℕ → ℕ → MemNode
stamp n ttl now = record { node = n; ttl = ttl; last_seen = now }

-- The loop over the nodes in `serviceToRecord`.
unfoldable pub record_nodes : List Node → ℕ → ℕ → Map MemNode → Map MemNode
record_nodes [] ttl now m = m
record_nodes (n ∷ ns) ttl now m = record_nodes ns ttl now (insert n.id (stamp n ttl now) m)

unfoldable pub service_to_record : Service → ℕ → ℕ → Record
unfolding record_nodes
service_to_record s ttl now = record {
  name = s.name;
  version = s.version;
  metadata = s.metadata;
  nodes = record_nodes s.nodes ttl now [];
  endpoints = s.endpoints;
}

-- `new(Value)`
abbrev pub value_or_new : Option Value → Option Value
value_or_new none = some (value [] [] no_values)
value_or_new (some v) = some v

abbrev pub map_or_empty : Option (Map Text) → Map Text
map_or_empty none = []
map_or_empty (some m) = m

-- The copy of a node: it has no port, and a map where the node had nil.
abbrev pub copy_node : Node → Node
copy_node n = record {
  id = n.id;
  address = n.address;
  port = pos 0;
  metadata = some (map_or_empty n.metadata);
}

unfoldable pub list_nodes : Map MemNode → List Node
list_nodes [] = []
list_nodes ((id, n) ∷ m) = copy_node n.node ∷ list_nodes m

unfoldable pub record_to_service : Record → Service
unfolding list_nodes
record_to_service r = record {
  name = r.name;
  version = r.version;
  metadata = r.metadata;
  endpoints =
      map
        (λ (e : Endpoint). record e {
          request = value_or_new e.request;
          response = value_or_new e.response;
        })
        r.endpoints;
  nodes = list_nodes r.nodes;
}

-- A map that is found, or the empty one.
abbrev pub found_or_empty : Option (Map Record) → Map Record
found_or_empty none = []
found_or_empty (some m) = m

-- The loop of `Register` over the nodes of a version that is known: the map, and `addedNodes`. A node
-- is stored in the loop over its metadata.
abbrev pub add_node : Node → ℕ → ℕ → Map Text → Map MemNode → Map MemNode
add_node n ttl now [] m = m
add_node n ttl now (kv ∷ kvs) m =
    insert n.id (stamp (record (copy_node n) { metadata = some (kv ∷ kvs) }) ttl now) m

unfoldable pub add_nodes : List Node → ℕ → ℕ → Map MemNode → Map MemNode × Bool
add_nodes [] ttl now m = (m, false)
add_nodes (n ∷ ns) ttl now m = elim (lookup n.id m) [
  | some known ↦ add_nodes ns ttl now m
  | none ↦ ((add_nodes ns ttl now (add_node n ttl now (map_or_empty n.metadata) m)).0, true)
]

-- The refresh of the nodes: `none` is the panic at a node that is not there.
unfoldable pub refresh : List Node → ℕ → ℕ → Map MemNode → Option (Map MemNode)
refresh [] ttl now m = some m
refresh (n ∷ ns) ttl now m = elim (lookup n.id m) [
  | none ↦ none
  | some known ↦ refresh ns ttl now (insert n.id (stamp known.node ttl now) m)
]

abbrev pub set_nodes : MemRegistry → Text → Text → Map Record → Record → Map MemNode → MemRegistry
set_nodes m name version versions r nodes = record m {
  records = insert name (insert version (record r { nodes = nodes }) versions) m.records;
}

abbrev pub refreshed :
    MemRegistry
    → Text
    → Text
    → Map Record
    → Record
    → Option (Map MemNode)
    → Option (MemRegistry × Option Event)
refreshed m name version versions r none = none
refreshed m name version versions r (some nodes) =
    some (set_nodes m name version versions r nodes, none)

-- `Register` where the version is known.
unfoldable pub register_again :
    Service → ℕ → ℕ → Map Record → Record → MemRegistry → Option (MemRegistry × Option Event)
unfolding add_nodes refresh
register_again s ttl now versions r m =
    let (nodes, added) = add_nodes s.nodes ttl now r.nodes in
    let again = refreshed m s.name s.version versions r (refresh s.nodes ttl now nodes) in
    if added then some (set_nodes m s.name s.version versions r nodes, some (update s)) else again

-- `Register`; `none` is a panic.
unfoldable pub register : Service → ℕ → ℕ → MemRegistry → Option (MemRegistry × Option Event)
unfolding register_again service_to_record
register s ttl now m =
    let versions = found_or_empty (lookup s.name m.records) in
    elim (lookup s.version versions) [
      | none ↦ some (
        record m {
          records =
              insert s.name (insert s.version (service_to_record s ttl now) versions) m.records;
        },
        some (update s),
      )
      | some r ↦ register_again s ttl now versions r m
    ]

-- The deletes of `Deregister`.
unfoldable pub delete_nodes : List Node → Map MemNode → Map MemNode
delete_nodes [] m = m
delete_nodes (n ∷ ns) m = delete_nodes ns (delete n.id m)

abbrev pub put_record : Text → Record → Map MemNode → Map Record → Map Record
put_record version r [] versions = delete version versions
put_record version r (n ∷ ns) versions = insert version (record r { nodes = n ∷ ns }) versions

abbrev pub delete_from : List Node → Text → Option Record → Map Record → Map Record
delete_from ns version none versions = versions
delete_from ns version (some r) versions = put_record version r (delete_nodes ns r.nodes) versions

abbrev pub put_versions : Text → Map Record → Map (Map Record) → Map (Map Record)
put_versions name [] m = delete name m
put_versions name (v ∷ vs) m = insert name (v ∷ vs) m

abbrev pub deregister_from :
    Service → Option (Map Record) → MemRegistry → MemRegistry × Option Event
deregister_from s none m = (m, none)
deregister_from s (some versions) m = (
  record m {
    records =
        put_versions s.name (delete_from s.nodes s.version (lookup s.version versions) versions)
          m.records;
  },
  some (delete_event s),
)

unfoldable pub deregister : Service → MemRegistry → MemRegistry × Option Event
unfolding delete_nodes
deregister s m = deregister_from s (lookup s.name m.records) m

-- The test of `ttlPrune`, and its three loops.
abbrev pub is_expired : ℕ → MemNode → Bool
is_expired now n = not (n.ttl == 0) && ltb n.ttl (now - n.last_seen)

unfoldable pub prune_nodes : ℕ → Map MemNode → Map MemNode
prune_nodes now m = select (λ (kv : Text × MemNode). not (is_expired now kv.1)) m

unfoldable pub prune_versions : ℕ → Map Record → Map Record
unfolding prune_nodes
prune_versions now [] = []
prune_versions now ((v, r) ∷ m) =
    (v, record r { nodes = prune_nodes now r.nodes }) ∷ prune_versions now m

unfoldable pub prune_records : ℕ → Map (Map Record) → Map (Map Record)
unfolding prune_versions
prune_records now [] = []
prune_records now ((name, vs) ∷ m) = (name, prune_versions now vs) ∷ prune_records now m

unfoldable pub ttl_prune : ℕ → MemRegistry → MemRegistry
unfolding prune_records
ttl_prune now m = record m { records = prune_records now m.records }

unfoldable pub list_records : Map Record → List Service
unfolding record_to_service
list_records [] = []
list_records ((v, r) ∷ m) = record_to_service r ∷ list_records m

-- `GetService`: `none` is ErrNotFound.
unfoldable pub get_service : Text → MemRegistry → Option (List Service)
unfolding list_records
get_service name m = elim (lookup name m.records) [ none ↦ none | some vs ↦ some (list_records vs) ]

unfoldable pub list_all : Map (Map Record) → List Service
unfolding list_records
list_all [] = []
list_all ((name, vs) ∷ m) = list_records vs ++ list_all m

-- `ListServices`
unfoldable pub list_services : MemRegistry → List Service
unfolding list_all
list_services m = list_all m.records

-- `Init` adds the services and versions of the context that are not tracked yet.
unfoldable pub add_versions : Map Record → Map Record → Map Record
add_versions [] tracked = tracked
add_versions ((v, r) ∷ m) tracked = elim (lookup v tracked) [
  | some known ↦ add_versions m tracked
  | none ↦ add_versions m (insert v r tracked)
]

unfoldable pub init_records : Map (Map Record) → Map (Map Record) → Map (Map Record)
unfolding add_versions
init_records [] tracked = tracked
init_records ((name, vs) ∷ m) tracked = elim (lookup name tracked) [
  | none ↦ init_records m (insert name vs tracked)
  | some known ↦ init_records m (insert name (add_versions vs known) tracked)
]

unfoldable pub init : Map (Map Record) → MemRegistry → MemRegistry
unfolding init_records
init records m = record m { records = init_records records m.records }
