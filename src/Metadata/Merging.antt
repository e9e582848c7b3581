-- ===== src/Metadata/Merging.antt =====
-- What is read of metadata after they were set, deleted and merged.
use realmicro.Common.{
  ◌≡◌, refl, sym, ap, ◌∙◌, Text, [], ◌∷◌, Bool, true, false, not, ◌&&◌, Option, none, some, teq,
  teq_iff, Map, lookup, delete, lookup-insert, lookup-delete, if◌then◌else◌, arith, teq_refl,
  Distinct,
}
use realmicro.Metadata.{
  Context, is_some, put_or_delete, or_empty, md_get, md_set, md_delete, merge_loop, merge_context,
}

abbrev pub value_of : Text → Option Text
value_of [] = none
value_of (c ∷ v) = some (c ∷ v)

lookup-put_or_delete :
    (k j v : Text) (m : Map Text)
    → lookup j (put_or_delete k v m) ≡ (if teq k j then value_of v else lookup j m)
unfolding put_or_delete
lookup-put_or_delete k j [] m = lookup-delete k j m
lookup-put_or_delete k j (c ∷ v) m = lookup-insert k j (c ∷ v) m

-- What is under a key after a merge, by what the patch and the metadata have under it.
abbrev pub merged : Bool → Option Text → Option Text → Option Text
merged overwrite none old = old
merged overwrite (some v) none = value_of v
merged overwrite (some v) (some w) = if overwrite then value_of v else some w

merge_loop-merged :
    (overwrite : Bool) (patch cmd : Map Text) (j : Text)
    → Distinct patch
    → lookup j (merge_loop overwrite patch cmd) ≡ merged overwrite (lookup j patch) (lookup j cmd)
unfolding merge_loop lookup
merge_loop-merged overwrite [] cmd j d = refl
merge_loop-merged overwrite ((k, v) ∷ patch) cmd j d =
    merge_loop-merged overwrite patch after j d.1 ∙ go (teq k j) refl
  where
    after : Map Text
    after = if is_some (lookup k cmd) && not overwrite then cmd else put_or_delete k v cmd

    here :
        (o : Option Text) (w : Bool)
        → lookup k cmd ≡ o
        → lookup k (if is_some o && not w then cmd else put_or_delete k v cmd) ≡ merged w (some v) o
    here none w e = lookup-put_or_delete k k v cmd ∙ rw (teq_refl k) refl
    here (some u) true e = lookup-put_or_delete k k v cmd ∙ rw (teq_refl k) refl
    here (some u) false e = e

    there :
        (b : Bool)
        → teq k j ≡ false
        → lookup j (if b then cmd else put_or_delete k v cmd) ≡ lookup j cmd
    there true ne = refl
    there false ne = lookup-put_or_delete k j v cmd ∙ rw ne refl

    go :
        (b : Bool)
        → teq k j ≡ b
        → merged overwrite (lookup j patch) (lookup j after)
          ≡ merged overwrite (if b then some v else lookup j patch) (lookup j cmd)
    go true e =
        let same : k ≡ j = (teq_iff k j).0 e in
        ap (λ x. merged overwrite (lookup x patch) (lookup x after)) (sym same)
        ∙ rw d.0 (here (lookup k cmd) overwrite refl)
        ∙ ap (λ x. merged overwrite (some v) (lookup x cmd)) same
    go false e =
        ap (merged overwrite (lookup j patch)) (there (is_some (lookup k cmd) && not overwrite) e)

-- `MergeContext` sets under each key what the patch says of it, whatever the order of the patch: a
-- value replaces what is there only with `overwrite`, an empty one then deletes it, and what the
-- patch does not name stays.
pub merge_context-merged :
    (ctx : Context) (patch : Map Text) (overwrite : Bool) (j : Text)
    → Distinct patch
    → lookup j (or_empty (merge_context ctx patch overwrite))
      ≡ merged overwrite (lookup j patch) (lookup j (or_empty ctx))
unfolding merge_context
merge_context-merged ctx patch overwrite j d = merge_loop-merged overwrite patch (or_empty ctx) j d

-- `Get` after `Set` of the same key is the value, and after `Delete` nothing.
pub md_get-md_set :
    (title : Text → Text) (md : Map Text) (key val : Text)
    → (md_get title (md_set md key val) key ≡ some val)
      × (md_get title (md_delete title md key) key ≡ none)
unfolding md_get md_set md_delete
md_get-md_set title md key val = (
  rw (lookup-insert key key val md, teq_refl key) refl,
  ground (
    arith,
    lookup-delete (title key) key (delete key md),
    lookup-delete key key md,
    lookup-delete (title key) (title key) (delete key md),
    teq_refl key,
    teq_refl (title key),
  ),
)
