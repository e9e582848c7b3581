-- ===== src/Selector/Default.antt =====
-- selector/default.go: the selector over the registry cache. `ask` is what a registry of type `R`
-- answers, and `N` the type of what a strategy makes of the services.
use realmicro.Common.{ℕ, Text, List, [], ◌∷◌, ◌++◌, Option, none, some, ℤ, pos}
use realmicro.Registry.{Service}
use realmicro.Registry.Cache.{
  RegistryCache, Answer, answered, not_found, failed, new_cache, get_service,
}

-- `Options`; of the context the value of "selector_ttl" alone is read.
pub record Options {ℓ} (R N : Type ℓ) : Type ℓ where
  pub registry : Option R
  pub strategy : List Service → N
  pub selector_ttl : Option ℤ

pub data Setting {ℓ} (R N : Type ℓ) : Type ℓ where
  set_registry : R → Setting R N
  set_strategy : (List Service → N) → Setting R N
  with_selector_ttl : ℤ → Setting R N

pub record SelectOptions {ℓ} (N : Type ℓ) : Type ℓ where
  pub strategy : List Service → N
  pub filters : List (List Service → List Service)

pub data SelectSetting {ℓ} (N : Type ℓ) : Type ℓ where
  with_filter : List (List Service → List Service) → SelectSetting N
  with_strategy : (List Service → N) → SelectSetting N

pub record RegistrySelector {ℓ} (R N : Type ℓ) : Type ℓ where
  pub so : Options R N
  pub rc : RegistryCache

pub data Selection {ℓ} (N : Type ℓ) : Type ℓ where
  next : N → Selection N
  err_not_found err_none_available : Selection N
  err_registry : Text → Selection N

abbrev pub default_ttl : ℤ
default_ttl = pos 60000000000

abbrev pub ttl_or_default : Option ℤ → ℤ
ttl_or_default none = default_ttl
ttl_or_default (some t) = t

unfoldable pub apply_filters : List (List Service → List Service) → List Service → List Service
apply_filters [] services = services
apply_filters (f ∷ fs) services = apply_filters fs (f services)

abbrev pub or_registry {ℓ} : {R : Type ℓ} → R → Option R → R
or_registry default none = default
or_registry default (some r) = r

module _ {ℓ} {N : Type ℓ} where
  abbrev pub set_select : SelectSetting N → SelectOptions N → SelectOptions N
  set_select (with_filter fns) o = record o { filters = o.filters ++ fns }
  set_select (with_strategy fn) o = record o { strategy = fn }

  unfoldable pub select_loop : List (SelectSetting N) → SelectOptions N → SelectOptions N
  select_loop [] o = o
  select_loop (s ∷ ss) o = select_loop ss (set_select s o)

  abbrev pub chosen_by : (List Service → N) → List Service → Selection N
  chosen_by strategy [] = err_none_available
  chosen_by strategy (s ∷ ss) = next (strategy (s ∷ ss))

  abbrev pub selection : SelectOptions N → Answer → Selection N
  selection sopts (answered services) =
      chosen_by sopts.strategy (apply_filters sopts.filters services)
  selection sopts not_found = err_not_found
  selection sopts (failed e) = err_registry e

module _ {ℓ} {R N : Type ℓ} where
  abbrev pub set_option : Setting R N → Options R N → Options R N
  set_option (set_registry r) o = record o { registry = some r }
  set_option (set_strategy fn) o = record o { strategy = fn }
  set_option (with_selector_ttl t) o = record o { selector_ttl = some t }

  unfoldable pub options_loop : List (Setting R N) → Options R N → Options R N
  options_loop [] o = o
  options_loop (s ∷ ss) o = options_loop ss (set_option s o)

  -- `newCache`
  unfoldable pub cache_of : Options R N → RegistryCache
  unfolding new_cache
  cache_of o = new_cache (ttl_or_default o.selector_ttl)

  unfoldable pub with_registry : R → Options R N → Options R N
  with_registry default o = record o { registry = some (or_registry default o.registry) }

  -- `NewSelector` with the strategy `Random` and the default registry.
  unfoldable pub new_selector : (List Service → N) → R → List (Setting R N) → RegistrySelector R N
  unfolding options_loop with_registry cache_of
  new_selector random default opts =
      let sopts =
        with_registry default (
          options_loop opts (record { registry = none; strategy = random; selector_ttl = none })) in
      record { so = sopts; rc = cache_of sopts }

  unfoldable pub init : List (Setting R N) → RegistrySelector R N → RegistrySelector R N
  unfolding options_loop cache_of
  init opts s = let so = options_loop opts s.so in record { so = so; rc = cache_of so }

  -- `Select`, where the registry gives the answer when the cache asks it.
  unfoldable pub select_next :
      ℕ
      → Answer
      → Text
      → List (SelectSetting N)
      → RegistrySelector R N
      → RegistrySelector R N × Selection N
  unfolding select_loop get_service apply_filters
  select_next now answer service opts s =
      let sopts = select_loop opts (record { strategy = s.so.strategy; filters = [] }) in
      let (rc, got) = get_service now service answer s.rc in
      (record s { rc = rc }, selection sopts got)
