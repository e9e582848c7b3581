-- ===== src/Metadata.antt =====
-- metadata/metadata.go. `title` stands for `strings.Title`, by the tables of Unicode. A context is what it
-- holds under the metadata's key; a copy is a value.
pub mod Merging
use realmicro.Common.{
  Text, List, [], ◌∷◌, Bool, true, false, not, ◌&&◌, Option, none, some, Map, lookup, insert,
  delete, if◌then◌else◌,
}

abbrev pub Context : Type 0
Context = Option (Map Text)

abbrev pub or_found : Option Text → Option Text → Option Text
or_found none o = o
or_found (some v) o = some v

abbrev pub is_some : Option Text → Bool
is_some none = false
is_some (some v) = true

-- An empty value deletes.
unfoldable pub put_or_delete : Text → Text → Map Text → Map Text
unfolding insert delete
put_or_delete k [] m = delete k m
put_or_delete k (c ∷ v) m = insert k (c ∷ v) m

abbrev pub or_empty : Context → Map Text
or_empty none = []
or_empty (some md) = md

module _ (title : Text → Text) where
  unfoldable pub md_get : Map Text → Text → Option Text
  unfolding lookup
  md_get md key = or_found (lookup key md) (lookup (title key) md)

  unfoldable pub md_delete : Map Text → Text → Map Text
  unfolding delete
  md_delete md key = delete (title key) (delete key md)

  abbrev pub get_from : Text → Context → Option Text
  get_from key none = none
  get_from key (some md) = or_found (lookup key md) (lookup (title key) md)

  -- `Get` of a context.
  unfoldable pub get : Context → Text → Option Text
  unfolding lookup
  get ctx key = get_from key ctx

unfoldable pub md_set : Map Text → Text → Text → Map Text
unfolding insert
md_set md key val = insert key val md

unfoldable pub from_context : Context → Context
from_context ctx = ctx

unfoldable pub new_context : Context → Map Text → Context
new_context ctx md = some md

-- `Set` of a context.
unfoldable pub set : Context → Text → Text → Context
unfolding from_context put_or_delete
set ctx k v = some (put_or_delete k v (or_empty (from_context ctx)))

-- `Delete` of a context.
unfoldable pub delete_from : Context → Text → Context
unfolding set
delete_from ctx k = set ctx k []

-- The loop of `MergeContext` over the patch.
unfoldable pub merge_loop : Bool → Map Text → Map Text → Map Text
unfolding lookup put_or_delete
merge_loop overwrite [] cmd = cmd
merge_loop overwrite ((k, v) ∷ patch) cmd =
    merge_loop overwrite patch
      (if is_some (lookup k cmd) && not overwrite then cmd else put_or_delete k v cmd)

unfoldable pub merge_context : Context → Map Text → Bool → Context
unfolding merge_loop
merge_context ctx patch overwrite = some (merge_loop overwrite patch (or_empty ctx))
