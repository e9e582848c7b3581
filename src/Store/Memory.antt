-- ===== src/Store/Memory.antt =====
-- store/memory.go over the third-party cache `G`. A call takes the clock reading; `none` is a panic. The
-- cache holds nothing but `*storeRecord`, so the error for another type is left out. A copy is a value.

pub mod Written
pub mod Reading
use realmicro.Common.{
  ℕ, zero, suc, ◌+◌, ◌-◌, ◌^◌, Text, List, [], ◌∷◌, ◌++◌, Bool, true, false, not, ◌&&◌, ◌||◌,
  Option, none, some, ℤ, pos, negsuc, ltb_ℤ, ltb, leb, ◌==◌, ◌+ℤ◌, ◌-ℤ◌, teq, codes, Map, length,
  take, drop, map, select, reverse, replicate, has_prefix, if◌then◌else◌,
}
use realmicro.Store.{
  Record, Error, not_found, Options, Setting, set_option, ReadOptions, ReadOption, set_read,
  WriteOptions, WriteOption, set_write, DeleteOptions, DeleteOption, set_delete, ListOptions,
  ListOption, set_list, each,
}
use realmicro.Store.GoCache.{GoCache}
use realmicro.Store.FilePath.{join_path}

module _ (D : Type 0) where
  pub record StoreRecord : Type 0 where
    pub expires_at : Option ℤ
    pub metadata : Map D
    pub key : Text
    pub value : Text

  pub record MemoryStore (G : GoCache StoreRecord) : Type 0 where
    pub options : Options
    pub store : G.State

-- strings.TrimPrefix and strings.HasSuffix
unfoldable pub trim_prefix : Text → Text → Text
unfolding has_prefix
trim_prefix s p = if has_prefix s p then drop (length p) s else s

unfoldable pub has_suffix : Text → Text → Bool
unfolding has_prefix
has_suffix s suffix = has_prefix (reverse s) (reverse suffix)

-- The order of strings, by their bytes.
unfoldable pub text_lt : Text → Text → Bool
text_lt s [] = false
text_lt [] (d ∷ t) = true
text_lt (c ∷ s) (d ∷ t) = if c == d then text_lt s t else ltb c d

unfoldable pub insert_key : Text → List Text → List Text
unfolding text_lt
insert_key k [] = k ∷ []
insert_key k (j ∷ ks) = let rest = insert_key k ks in if text_lt j k then j ∷ rest else k ∷ (j ∷ ks)

-- sort.Slice on the keys: texts that the order does not tell apart are equal, so that the sort gives
-- one result.
unfoldable pub sort_keys : List Text → List Text
unfolding insert_key
sort_keys [] = []
sort_keys (k ∷ ks) = insert_key k (sort_keys ks)

abbrev pub default_options : Options
default_options = record { database = codes "realmicro"; table = codes "realmicro" }

unfoldable pub or_default : Text → Text → Text
or_default [] d = d
or_default (c ∷ t) d = c ∷ t

unfoldable pub store_prefix : Options → Text → Text → Text
unfolding or_default join_path
store_prefix o db table = join_path (or_default db o.database) (or_default table o.table)

abbrev pub map_or_empty {ℓ} : {V : Type ℓ} → Option (Map V) → Map V
map_or_empty none = []
map_or_empty (some m) = m

-- The keys below the prefix, without it, and as many empty texts as keys were passed over.
unfoldable pub pick_keys : Text → List Text → List Text × ℕ
unfolding has_prefix trim_prefix
pick_keys prefix [] = ([], 0)
pick_keys prefix (k ∷ ks) =
    let (kept, passed) = pick_keys prefix ks in
    if has_prefix k (prefix ++ codes "/")
    then (trim_prefix k (prefix ++ codes "/") ∷ kept, passed)
    else (kept, passed + 1)

-- keys[offset:min(limit, len(keys))]
abbrev pub slice_keys : ℕ → ℕ → List Text → Option (List Text)
slice_keys limit offset keys =
    let stop = if ltb limit (length keys) then limit else length keys in
    if ltb stop offset then none else some (drop offset (take stop keys))

abbrev pub all_keys : List Text × ℕ → List Text
all_keys (kept, passed) = kept ++ replicate passed []

-- int(x) for a uint of 64 bits
abbrev pub int_of : ℕ → ℤ
int_of x = if ltb x (2 ^ 63) then pos x else negsuc (2 ^ 64 - 1 - x)

-- The keys k[i] for i from offset up to below limit; a negative index panics.
unfoldable pub window : ℤ → ℤ → List Text → Option (List Text)
window (negsuc o) limit k = if ltb_ℤ (negsuc o) limit then none else some []
window (pos o) (negsuc l) k = some []
window (pos o) (pos l) k = some (drop o (take l k))

abbrev pub at_most : ℕ → ℤ → ℤ
at_most n x = if ltb_ℤ (pos n) x then pos n else x

-- Whether the loop over the keys keeps one.
abbrev pub is_match : ReadOptions → Text → Text → Bool
is_match o key k =
    if o.with_prefix && not (has_prefix k key)
    then false
    else if o.with_suffix && not (has_suffix k key)
    then false
    else true

unfoldable pub matching_keys : ReadOptions → Text → Option (List Text) → Option (List Text)
unfolding select window has_prefix has_suffix
matching_keys o key none = none
matching_keys o key (some k) =
    elim (window (at_most (length k) (int_of o.offset)) (at_most (length k) (int_of o.limit)) k) [
      | none ↦ none
      | some ks ↦ some (select (is_match o key) ks)
    ]

abbrev pub no_read_options : ReadOptions
no_read_options = record {
  database = [];
  table = [];
  with_prefix = false;
  with_suffix = false;
  limit = 0;
  offset = 0;
}

abbrev pub no_write_options : WriteOptions
no_write_options = record { database = []; table = []; expiry = none; ttl = pos 0 }

abbrev pub is_zero : ℤ → Bool
is_zero (pos zero) = true
is_zero (pos (suc n)) = false
is_zero (negsuc n) = false

abbrev pub filter_keys : (Text → Text → Bool) → Text → List Text → List Text
filter_keys test [] keys = keys
filter_keys test (c ∷ t) keys = select (λ k. test k (c ∷ t)) keys

abbrev pub no_list_options : ListOptions
no_list_options = record {
  database = [];
  table = [];
  list_prefix = [];
  list_suffix = [];
  limit = 0;
  offset = 0;
}

abbrev pub filter_list : ListOptions → Option (List Text) → Option (List Text)
filter_list o none = none
filter_list o (some keys) =
    some (filter_keys has_suffix o.list_suffix (filter_keys has_prefix o.list_prefix keys))

-- What `time.Until` makes of a difference: a duration is an int64, and one too large is cut.
abbrev pub duration_of : ℤ → ℤ
duration_of (pos n) = if ltb n (2 ^ 63) then pos n else pos (2 ^ 63 - 1)
duration_of (negsuc n) = if ltb n (2 ^ 63) then negsuc n else negsuc (2 ^ 63 - 1)

-- The hard time stamp of an expiry, and `time.Until` of it; a record without one keeps 0.
unfoldable pub expires_at : ℕ → ℤ → Option ℤ
unfolding ◌+ℤ◌
expires_at now (pos zero) = none
expires_at now (pos (suc d)) = some (pos now +ℤ pos (suc d))
expires_at now (negsuc d) = some (pos now +ℤ negsuc d)

unfoldable pub time_until : ℕ → Option ℤ → ℤ
unfolding ◌-ℤ◌
time_until now none = pos 0
time_until now (some t) = duration_of (t -ℤ pos now)

module _ {D : Type 0} (G : GoCache (StoreRecord D)) where
  unfoldable pub new_store : List Setting → MemoryStore D G
  unfolding each set_option
  new_store opts = record { options = each set_option default_options opts; store = G.empty }

  unfoldable pub init : List Setting → MemoryStore D G → MemoryStore D G
  unfolding each set_option
  init opts m = record m { options = each set_option m.options opts }

  -- `Flush`
  unfoldable pub close : MemoryStore D G → MemoryStore D G
  close m = record m { store = G.empty }

  -- The record that `get` makes of a stored one; `time.Until` is what is left.
  unfoldable pub read_record : ℕ → Text → StoreRecord D → Record D
  unfolding trim_prefix time_until
  read_record now prefix s = record {
    metadata = some s.metadata;
    key = trim_prefix s.key (prefix ++ codes "/");
    value = s.value;
    expiry = time_until now s.expires_at;
  }

  abbrev pub found : ℕ → Text → Option (StoreRecord D) → Option (Record D)
  found now prefix none = none
  found now prefix (some s) = some (read_record now prefix s)

  -- `get`: `none` is ErrNotFound.
  unfoldable pub get : ℕ → Text → Text → MemoryStore D G → Option (Record D)
  unfolding join_path read_record
  get now prefix key m = found now prefix (G.get now (join_path prefix key) m.store)

  -- The record that `set` stores.
  unfoldable pub stored_record : ℕ → Record D → StoreRecord D
  unfolding expires_at
  stored_record now r = record {
    expires_at = expires_at now r.expiry;
    metadata = map_or_empty r.metadata;
    key = r.key;
    value = r.value;
  }

  unfoldable pub set : ℕ → Text → Record D → MemoryStore D G → MemoryStore D G
  unfolding join_path stored_record
  set now prefix r m = record m {
    store = G.put now (join_path prefix r.key) (stored_record now r) r.expiry m.store;
  }

  unfoldable pub delete_key : Text → Text → MemoryStore D G → MemoryStore D G
  unfolding join_path
  delete_key prefix key m = record m { store = G.remove (join_path prefix key) m.store }

  -- `list`: `none` is the panic of a slice whose start is behind its end.
  unfoldable pub list : ℕ → Text → ℕ → ℕ → MemoryStore D G → Option (List Text)
  unfolding pick_keys sort_keys
  list now prefix limit offset m =
      let keys =
        all_keys
          (pick_keys prefix (map (λ (i : Text × StoreRecord D). i.0) (G.items now m.store))) in
      if limit == 0 && offset == 0 then some keys else slice_keys limit offset (sort_keys keys)

  abbrev pub add_result :
      Option (Record D) → List (Record D) × Option Error → List (Record D) × Option Error
  add_result none (results, err) = ([], some not_found)
  add_result (some r) (results, err) = (r ∷ results, err)

  -- The last loop of `Read`: the records before the first error, and the error.
  unfoldable pub get_each : ℕ → Text → List Text → MemoryStore D G → List (Record D) × Option Error
  unfolding get
  get_each now prefix [] m = ([], none)
  get_each now prefix (k ∷ ks) m = add_result (get now prefix k m) (get_each now prefix ks m)

  abbrev pub get_all :
      ℕ → Text → MemoryStore D G → Option (List Text) → Option (List (Record D) × Option Error)
  get_all now prefix m none = none
  get_all now prefix m (some ks) = some (get_each now prefix ks m)

  unfoldable pub read :
      ℕ → Text → List ReadOption → MemoryStore D G → Option (List (Record D) × Option Error)
  unfolding each set_read store_prefix list matching_keys get_each
  read now key opts m =
      let o = each set_read no_read_options opts in
      let prefix = store_prefix m.options o.database o.table in
      get_all now prefix m (
        if o.with_prefix || o.with_suffix
        then matching_keys o key (list now prefix 0 0 m)
        else some (key ∷ []))

  -- The copy that the options change; `time.Until` of the instant of expiry.
  unfoldable pub with_options : ℕ → WriteOptions → Record D → Record D
  unfolding ◌-ℤ◌
  with_options now o r =
      let until : ℤ = elim o.expiry [ none ↦ r.expiry | some t ↦ duration_of (t -ℤ pos now) ] in
      record {
        metadata = some (map_or_empty r.metadata);
        key = r.key;
        value = r.value;
        expiry = if is_zero o.ttl then until else o.ttl;
      }

  unfoldable pub write : ℕ → Record D → List WriteOption → MemoryStore D G → MemoryStore D G
  unfolding each set_write store_prefix set with_options
  write now r opts m =
      let o = each set_write no_write_options opts in
      let prefix = store_prefix m.options o.database o.table in
      elim opts [ [] ↦ set now prefix r m | x ∷ xs ↦ set now prefix (with_options now o r) m ]

  unfoldable pub delete : Text → List DeleteOption → MemoryStore D G → MemoryStore D G
  unfolding each set_delete store_prefix delete_key
  delete key opts m =
      let o : DeleteOptions = each set_delete (record { database = []; table = [] }) opts in
      delete_key (store_prefix m.options o.database o.table) key m

  unfoldable pub list_keys : ℕ → List ListOption → MemoryStore D G → Option (List Text)
  unfolding each set_list store_prefix list select has_prefix has_suffix
  list_keys now opts m =
      let o = each set_list no_list_options opts in
      filter_list o (list now (store_prefix m.options o.database o.table) o.limit o.offset m)
