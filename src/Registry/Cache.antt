-- ===== src/Registry/Cache.antt =====
-- registry/cache/cache.go: the registry's answers kept for a time, and the events that change them. A call
-- takes the clock reading, which is never the zero time; `status` says that an error is kept. The call
-- of the registry and its sharing by key stand between `get_cached` and `get_answered`. A copy is a value.
pub mod Places
pub mod Events
use realmicro.Common.{
  ℕ, zero, suc, ◌+◌, Text, List, [], ◌∷◌, ◌++◌, Bool, true, false, not, Option, none, some, ℤ, pos,
  negsuc, ltb_ℤ, ◌+ℤ◌, ◌==◌, teq, length, set, select, Map, lookup, insert, delete, if◌then◌else◌,
}
use realmicro.Registry.{Node, Service}
use realmicro.Registry.Util.{keep_old, del_nodes, is_empty}

pub record RegistryCache : Type 0 where
  pub ttl : ℤ
  pub status : Bool
  pub cache : Map (List Service)
  pub ttls : Map ℤ
  pub watched : Map Bool

-- `Result.Action`
pub data Action : Type 0 where
  created updated deleted override other : Action

unfoldable pub new_cache : ℤ → RegistryCache
new_cache ttl = record { ttl = ttl; status = false; cache = []; ttls = []; watched = [] }

abbrev pub is_none_left : List Service → Bool
is_none_left [] = true
is_none_left (s ∷ ss) = false

-- `isValid`; a missing entry of `ttls` is the zero time.
unfoldable pub is_valid : ℕ → List Service → Option ℤ → Bool
is_valid now [] t = false
is_valid now (s ∷ ss) none = false
is_valid now (s ∷ ss) (some t) = not (ltb_ℤ t (pos now))

unfoldable pub del : Text → RegistryCache → RegistryCache
unfolding delete
del service c =
    if c.status
    then c
    else record c { cache = delete service c.cache; ttls = delete service c.ttls }

unfoldable pub set_services : ℕ → Text → List Service → RegistryCache → RegistryCache
unfolding insert ◌+ℤ◌
set_services now service services c = record c {
  cache = insert service services c.cache;
  ttls = insert service (pos now +ℤ c.ttl) c.ttls;
}

abbrev pub services_of : Option (List Service) → List Service
services_of none = []
services_of (some ss) = ss

abbrev pub is_positive : ℤ → Bool
is_positive (pos zero) = false
is_positive (pos (suc n)) = true
is_positive (negsuc n) = false

-- What the first part of `get` says: the services kept, or the old ones with the question for the registry.
pub data Cached : Type 0 where
  hit miss : List Service → Cached

-- `get` before it asks the registry; it marks the service as watched.
unfoldable pub get_cached : ℕ → Text → RegistryCache → RegistryCache × Cached
unfolding is_valid lookup insert
get_cached now service c =
    let cp = services_of (lookup service c.cache) in
    if is_valid now cp (lookup service c.ttls) then (c, hit cp) else (
      if is_positive c.ttl then record c { watched = insert service true c.watched } else c,
      miss cp,
    )

-- The closure `get` after the registry has answered; `none` is an error of the registry.
unfoldable pub get_answered :
    ℕ
    → Text
    → List Service
    → Option (List Service)
    → RegistryCache
    → RegistryCache × Option (List Service)
unfolding set_services
get_answered now service cached none c =
    if is_none_left cached then (c, none) else (record c { status = true }, some cached)
get_answered now service cached (some services) c =
    (set_services now service services (record c { status = false }), some services)

-- What the registry or `GetService` answers; ErrNotFound is an error of its own.
pub data Answer : Type 0 where
  answered : List Service → Answer
  not_found : Answer
  failed : Text → Answer

abbrev pub services_in : Answer → Option (List Service)
services_in (answered ss) = some ss
services_in not_found = none
services_in (failed e) = none

abbrev pub or_error : Answer → Option (List Service) → Answer
or_error answer none = answer
or_error answer (some []) = not_found
or_error answer (some (s ∷ ss)) = answered (s ∷ ss)

abbrev pub answer_of : Answer → RegistryCache × Option (List Service) → RegistryCache × Answer
answer_of answer (c, got) = (c, or_error answer got)

abbrev pub after_cached : ℕ → Text → Answer → RegistryCache × Cached → RegistryCache × Answer
after_cached now service answer (c, hit cp) = (c, or_error answer (some cp))
after_cached now service answer (c, miss cp) =
    answer_of answer (get_answered now service cp (services_in answer) c)

-- `GetService`, where the registry gives the answer when it is asked.
unfoldable pub get_service : ℕ → Text → Answer → RegistryCache → RegistryCache × Answer
unfolding get_cached get_answered
get_service now service answer c = after_cached now service answer (get_cached now service c)

-- The loop that looks for the version: the last service that has it, with its index.
unfoldable pub find_version : Text → ℕ → List Service → Option (Service × ℕ) → Option (Service × ℕ)
unfolding teq
find_version version i [] found = found
find_version version i (s ∷ ss) found =
    find_version version (i + 1) ss (if teq s.version version then some (s, i) else found)

-- The case of "create" and "update"; the loops over the nodes are those of `addNodes` and `delNodes`.
abbrev pub put_service :
    ℕ → Service → List Service → Option (Service × ℕ) → RegistryCache → RegistryCache
put_service now res services none c = set_services now res.name (services ++ (res ∷ [])) c
put_service now res services (some (service, index)) c =
    set_services now res.name
      (set services index (record res { nodes = keep_old service.nodes res.nodes })) c

-- The case of "delete" where the service has the nodes left.
abbrev pub put_left : ℕ → List Service → Service → ℕ → List Node → RegistryCache → RegistryCache
put_left now services service index [] c =
    if length services == 1
    then del service.name c
    else set_services now service.name
        (select (λ (s : Service). not (teq s.version service.version)) services) c
put_left now services service index (n ∷ ns) c =
    set_services now service.name (set services index (record service { nodes = n ∷ ns })) c

abbrev pub drop_nodes :
    ℕ → Service → List Service → Option (Service × ℕ) → RegistryCache → RegistryCache
drop_nodes now res services none c = c
drop_nodes now res services (some (service, index)) c =
    put_left now services service index (del_nodes service.nodes res.nodes) c

abbrev pub drop_all : Option (Service × ℕ) → RegistryCache → RegistryCache
drop_all none c = c
drop_all (some (service, index)) c = del service.name c

abbrev pub apply :
    ℕ → Action → Service → List Service → Option (Service × ℕ) → RegistryCache → RegistryCache
apply now created res services found c = put_service now res services found c
apply now updated res services found c = put_service now res services found c
apply now deleted res services found c = drop_nodes now res services found c
apply now override res services found c = drop_all found c
apply now other res services found c = c

abbrev pub without_nodes : Action → Text → RegistryCache → RegistryCache
without_nodes deleted name c = del name c
without_nodes _ name c = c

abbrev pub update_known :
    ℕ → Action → Service → Option Bool → Option (List Service) → RegistryCache → RegistryCache
update_known now action res none kept c = c
update_known now action res (some w) none c = c
update_known now action res (some w) (some services) c =
    if is_empty res.nodes
    then without_nodes action res.name c
    else apply now action res services (find_version res.version 0 services none) c

-- `update` for a result with a service.
unfoldable pub update : ℕ → Action → Service → RegistryCache → RegistryCache
unfolding lookup find_version set_services del keep_old del_nodes select
update now action res c =
    update_known now action res (lookup res.name c.watched) (lookup res.name c.cache) c

-- `getStatus` and `setStatus` of the watcher, before it calls `update`.
unfoldable pub reset_status : RegistryCache → RegistryCache
reset_status c = record c { status = false }

-- What the watcher does with an event, in two steps that take the lock. Another call can come between
-- them; here none does.
unfoldable pub watch_event : ℕ → Action → Service → RegistryCache → RegistryCache
unfolding reset_status update
watch_event now action res c = update now action res (reset_status c)

-- The end of the watcher's goroutine.
unfoldable pub run_exit : RegistryCache → RegistryCache
run_exit c = record c { watched = [] }
