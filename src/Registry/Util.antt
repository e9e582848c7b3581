-- ===== src/Registry/Util.antt =====
-- common/util/registry/util.go: lists of services merged and removed. A copy is a value here.
pub mod Sets
use realmicro.Common.{
  Text, List, [], ◌∷◌, ◌++◌, Bool, true, false, not, teq, if◌then◌else◌, any_of, select,
}
use realmicro.Registry.{Node, Service}

abbrev pub same_id : Node → Node → Bool
same_id o n = teq o.id n.id

-- The loop of `addNodes` over the old nodes, which looks at the nodes kept so far.
unfoldable pub keep_old : List Node → List Node → List Node
keep_old [] nodes = nodes
keep_old (o ∷ os) nodes =
    let seen = keep_old os nodes in
    let added = keep_old os (nodes ++ (o ∷ [])) in if any_of (same_id o) nodes then seen else added

unfoldable pub add_nodes : List Node → List Node → List Node
unfolding keep_old
add_nodes old neu = keep_old old neu

unfoldable pub del_nodes : List Node → List Node → List Node
unfolding select
del_nodes old del = select (λ (o : Node). not (any_of (same_id o) del)) old

-- The inner loop of `Merge` for one new service: what it appends.
unfoldable pub merge_one : List Service → Service → List Service
unfolding teq
merge_one [] n = n ∷ []
merge_one (o ∷ os) n =
    let rest = merge_one os n in
    if teq o.version n.version
    then record o { nodes = add_nodes o.nodes n.nodes } ∷ []
    else o ∷ rest

unfoldable pub merge : List Service → List Service → List Service
unfolding merge_one
merge olist [] = []
merge olist (n ∷ ns) = merge_one olist n ++ merge olist ns

-- The inner loop of `Remove` for one old service: its nodes, and `rem`.
abbrev pub is_empty : List Node → Bool
is_empty [] = true
is_empty (n ∷ ns) = false

unfoldable pub remove_one : Text → List Service → List Node → Bool → List Node × Bool
unfolding del_nodes teq
remove_one version [] nodes rem = (nodes, rem)
remove_one version (s ∷ ss) nodes rem =
    let left = del_nodes nodes s.nodes in
    let skip = remove_one version ss nodes rem in
    let cut = remove_one version ss left (if is_empty left then true else rem) in
    if teq version s.version then cut else skip

abbrev pub kept_service : Service → List Node × Bool → List Service → List Service
kept_service o (nodes, true) rest = rest
kept_service o (nodes, false) rest = record o { nodes = nodes } ∷ rest

unfoldable pub remove : List Service → List Service → List Service
unfolding remove_one
remove [] del = []
remove (o ∷ os) del = kept_service o (remove_one o.version del o.nodes false) (remove os del)
