-- ===== src/Cache.antt =====
-- cache/cache.go, cache/options.go and cache/memory.go: the cache in memory. A call takes the clock reading
-- in nanoseconds, and a stored expiration is an int of 64 bits.
pub mod Errors
use realmicro.Common.{
  ℕ, zero, suc, ◌+◌, ◌-◌, ◌%◌, ◌^◌, Text, List, [], ◌∷◌, Bool, true, false, Option, none, some, ℤ,
  pos, negsuc, ltb, ◌==◌, Map, lookup, insert, delete, if◌then◌else◌,
}

module _ (V : Type 0) where
  pub record Item : Type 0 where
    pub value : V
    pub expiration : ℤ

  pub record Options : Type 0 where
    pub items : Map Item
    pub expiration : ℤ

  pub record MemCache : Type 0 where
    pub opts : Options
    pub items : Map Item

  pub data Setting : Type 0 where
    expiration : ℤ → Setting
    items : Map Item → Setting

pub data Error : Type 0 where
  item_expired key_not_found : Error

-- What `Get` returns: the value and the instant of expiry, or an error.
pub data Reply (V : Type 0) : Type 0 where
  got : V → ℤ → Reply V
  failed : Error → Reply V

abbrev pub default_expiration : ℤ
default_expiration = pos 0

abbrev pub expired_at : ℕ → ℤ → Bool
expired_at now (pos e) = if e == 0 then false else ltb e now
expired_at now (negsuc e) = true

-- The duration of `Put`, and the expiration that it stores.
abbrev pub or_default : ℤ → ℤ → ℤ
or_default (pos zero) d = d
or_default (pos (suc n)) d = pos (suc n)
or_default (negsuc n) d = negsuc n

-- The int64 of a sum of two that are not negative, in two's complement.
unfoldable pub int64 : ℕ → ℤ
int64 n = if ltb (n % 2 ^ 64) (2 ^ 63) then pos (n % 2 ^ 64) else negsuc (2 ^ 64 - 1 - n % 2 ^ 64)

unfoldable pub expiration_at : ℕ → ℤ → ℤ
unfolding int64
expiration_at now (pos zero) = pos 0
expiration_at now (pos (suc d)) = int64 (now + suc d)
expiration_at now (negsuc d) = pos 0

module _ {V : Type 0} where
  unfoldable pub set_option : Options V → Setting V → Options V
  set_option o (expiration d) = record o { expiration = d }
  set_option o (items i) = record o { items = i }

  unfoldable pub options_loop : Options V → List (Setting V) → Options V
  unfolding set_option
  options_loop o [] = o
  options_loop o (s ∷ ss) = options_loop (set_option o s) ss

  unfoldable pub new_options : List (Setting V) → Options V
  unfolding options_loop
  new_options opts = options_loop (record { items = []; expiration = default_expiration }) opts

  unfoldable pub new_cache : List (Setting V) → MemCache V
  unfolding new_options
  new_cache opts =
      let options = new_options opts in record { opts = options; items = options.items }

  unfoldable pub is_expired : ℕ → Item V → Bool
  is_expired now i = expired_at now i.expiration

  abbrev pub get_item : ℕ → Option (Item V) → Reply V
  get_item now none = failed key_not_found
  get_item now (some item) =
      if is_expired now item then failed item_expired else got item.value item.expiration

  unfoldable pub get : ℕ → Text → MemCache V → Reply V
  unfolding is_expired lookup
  get now key c = get_item now (lookup key c.items)

  unfoldable pub put : ℕ → Text → V → ℤ → MemCache V → MemCache V
  unfolding insert expiration_at
  put now key val d c = record c {
    items =
        insert key
          (record { value = val; expiration = expiration_at now (or_default d c.opts.expiration) })
          c.items;
  }

  abbrev pub delete_found : Text → MemCache V → Option (Item V) → MemCache V × Option Error
  delete_found key c none = (c, some key_not_found)
  delete_found key c (some item) = (record c { items = delete key c.items }, none)

  unfoldable pub delete_key : Text → MemCache V → MemCache V × Option Error
  unfolding lookup delete
  delete_key key c = delete_found key c (lookup key c.items)
