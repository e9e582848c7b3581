-- ===== src/Registry/Util/Sets.antt =====
-- What common/util/registry/util.go makes of the nodes of services, as sets of ids.
use realmicro.Common.{
  Text, List, [], ◌∷◌, ◌++◌, Bool, true, false, ◌&&◌, ◌||◌, not, teq, teq_iff, if◌then◌else◌,
  any_of, select, arith, ◌≡◌, refl, sym, ap, ◌∙◌, Bool-cases, inl, inr, ap₂,
}
use realmicro.Registry.{Node, Service}
use realmicro.Registry.Util.{
  same_id, keep_old, add_nodes, del_nodes, is_empty, remove_one, kept_service, remove,
}

-- Whether a node has the id.
abbrev pub has_id : Text → List Node → Bool
has_id i ns = any_of (λ (n : Node). teq n.id i) ns

has_id-append : (i : Text) (xs ys : List Node) → has_id i (xs ++ ys) ≡ (has_id i xs || has_id i ys)
has_id-append i [] ys = refl
has_id-append i (x ∷ xs) ys = ground (arith, has_id-append i xs ys)

pub same_id-has_id : (o : Node) (ns : List Node) → any_of (same_id o) ns ≡ has_id o.id ns
same_id-has_id o [] = refl
same_id-has_id o (n ∷ ns) =
    ground (arith, same_id-has_id o ns, teq_iff o.id n.id, teq_iff n.id o.id)

-- No id stands twice.
abbrev pub IsUnique : List Node → Type 0
IsUnique [] = Unit
IsUnique (n ∷ ns) = (has_id n.id ns ≡ false) × IsUnique ns

append-IsUnique :
    (ns : List Node) (o : Node) → has_id o.id ns ≡ false → IsUnique ns → IsUnique (ns ++ (o ∷ []))
append-IsUnique [] o h u = (refl, tt)
append-IsUnique (n ∷ ns) o h u = (
  has_id-append n.id ns (o ∷ []) ∙ ground (arith, h, u.0, teq_iff n.id o.id, teq_iff o.id n.id),
  append-IsUnique ns o (ground (arith, h)) u.1,
)

keep_old-IsUnique : (old nodes : List Node) → IsUnique nodes → IsUnique (keep_old old nodes)
unfolding keep_old
keep_old-IsUnique [] nodes u = u
keep_old-IsUnique (o ∷ os) nodes u = elim (Bool-cases (any_of (same_id o) nodes)) [
  | inl seen ↦ rw seen (keep_old-IsUnique os nodes u)
  | inr new ↦ rw new (
      keep_old-IsUnique os (nodes ++ (o ∷ []))
        (append-IsUnique nodes o (sym (same_id-has_id o nodes) ∙ new) u))
]

or_assoc : (a b c : Bool) → ((a || (b || false)) || c) ≡ (a || (b || c))
or_assoc a b c = ground arith

pub keep_old-has_id :
    (i : Text) (old nodes : List Node)
    → has_id i (keep_old old nodes) ≡ (has_id i nodes || has_id i old)
unfolding keep_old
keep_old-has_id i [] nodes = ground arith
keep_old-has_id i (o ∷ os) nodes = elim (Bool-cases (any_of (same_id o) nodes)) [
  | inl seen ↦ rw seen (keep_old-has_id i os nodes ∙ seen_before seen)
  | inr new ↦ rw new (
      keep_old-has_id i os (nodes ++ (o ∷ []))
      ∙ ap (λ b. b || has_id i os) (has_id-append i nodes (o ∷ []))
      ∙ or_assoc (has_id i nodes) (teq o.id i) (has_id i os))
]
  where
    seen_before :
        any_of (same_id o) nodes ≡ true
        → (has_id i nodes || has_id i os) ≡ (has_id i nodes || (teq o.id i || has_id i os))
    seen_before seen = elim (Bool-cases (teq o.id i)) [
      | inl match ↦
          rw
            (
              match,
              sym (ap (λ k. has_id k nodes) ((teq_iff o.id i).0 match))
                  ∙ sym (same_id-has_id o nodes)
                  ∙ seen,
            )
            refl
      | inr other ↦ rw other refl
    ]

-- `addNodes` of new nodes with no id twice keeps no id twice, and its ids are those of the two lists.
pub add_nodes-IsUnique :
    (old neu : List Node)
    → IsUnique neu
    → IsUnique (add_nodes old neu)
      × ((i : Text) → has_id i (add_nodes old neu) ≡ (has_id i neu || has_id i old))
unfolding add_nodes
add_nodes-IsUnique old neu u = (keep_old-IsUnique old neu u, λ i. keep_old-has_id i old neu)

-- A service that is removed from, by a list of services: whether the list has the version, and whether
-- it takes a node.
abbrev pub has_version : Text → List Service → Bool
has_version version ss = any_of (λ (s : Service). teq version s.version) ss

abbrev pub takes_node : Text → List Service → Node → Bool
takes_node version ss n =
    any_of (λ (s : Service). teq version s.version && any_of (same_id n) s.nodes) ss

abbrev pub left_nodes : Text → List Service → List Node → List Node
left_nodes version del nodes = select (λ n. not (takes_node version del n)) nodes

-- The specification: each service with the nodes that no service of its version in `del` has, less
-- those of which nothing is left.
unfoldable pub remaining : List Service → List Service → List Service
unfolding select
remaining [] del = []
remaining (o ∷ os) del =
    kept_service o
      (
        left_nodes o.version del o.nodes,
        has_version o.version del && is_empty (left_nodes o.version del o.nodes),
      )
      (remaining os del)

select_congr :
    (p q : Node → Bool) (ns : List Node) → ((n : Node) → p n ≡ q n) → select p ns ≡ select q ns
unfolding select
select_congr p q [] h = refl
select_congr p q (n ∷ ns) h = rw (h n, select_congr p q ns h) refl

select-select :
    (p q : Node → Bool) (ns : List Node) → select q (select p ns) ≡ select (λ n. p n && q n) ns
unfolding select
select-select p q [] = refl
select-select p q (n ∷ ns) = elim (Bool-cases (p n)) [
  | inl take ↦ rw take (ap (λ r. if q n then n ∷ r else r) (select-select p q ns))
  | inr drop ↦ rw drop (select-select p q ns)
]

select_all : (ns : List Node) → select (λ n. true) ns ≡ ns
unfolding select
select_all [] = refl
select_all (n ∷ ns) = ap (◌∷◌ n) (select_all ns)

is_empty-select :
    (p : Node → Bool) (ns : List Node) → is_empty ns ≡ true → is_empty (select p ns) ≡ true
is_empty-select p [] h = unfold select in refl
is_empty-select p (n ∷ ns) h = absurd (ground arith)

takes_no_node :
    (version : Text) (ss : List Service) (n : Node)
    → has_version version ss ≡ false
    → takes_node version ss n ≡ false
takes_no_node version [] n h = refl
takes_no_node version (s ∷ ss) n h = ground (arith, takes_no_node version ss n)

left_all :
    (version : Text) (ss : List Service) (ns : List Node)
    → has_version version ss ≡ false
    → left_nodes version ss ns ≡ ns
left_all version ss ns h =
    select_congr (λ n. not (takes_node version ss n)) (λ n. true) ns
      (λ n. ap not (takes_no_node version ss n h))
    ∙ select_all ns

left_skip :
    (version : Text) (s : Service) (ss : List Service) (ns : List Node)
    → teq version s.version ≡ false
    → left_nodes version (s ∷ ss) ns ≡ left_nodes version ss ns
left_skip version s ss ns h = select_congr _ _ ns (λ n. rw h refl)

left_cut :
    (version : Text) (s : Service) (ss : List Service) (ns : List Node)
    → teq version s.version ≡ true
    → left_nodes version (s ∷ ss) ns ≡ left_nodes version ss (del_nodes ns s.nodes)
unfolding del_nodes
left_cut version s ss ns h =
    select_congr (λ n. not (takes_node version (s ∷ ss) n))
      (λ n. not (any_of (same_id n) s.nodes) && not (takes_node version ss n)) ns
      (λ n. rw h (ground arith))
    ∙ sym (
        select-select (λ n. not (any_of (same_id n) s.nodes)) (λ n. not (takes_node version ss n))
          ns)

-- The flag of the loop, where a service of the version comes first and leaves `cut`.
flag_cut :
    (version : Text) (ss : List Service) (cut : List Node) (rem : Bool)
    → ((if is_empty cut then true else rem)
        || (has_version version ss && is_empty (left_nodes version ss cut)))
      ≡ (rem || is_empty (left_nodes version ss cut))
flag_cut version ss cut rem = elim (Bool-cases (is_empty cut)) [
  | inl empty ↦
      rw (empty, is_empty-select (λ n. not (takes_node version ss n)) cut empty) (ground arith)
  | inr full ↦ elim (Bool-cases (has_version version ss)) [
    | inl here ↦ rw (full, here) refl
    | inr absent ↦ rw (left_all version ss cut absent, full, absent) (ground arith)
  ]
]

remove_one-left :
    (version : Text) (del : List Service) (ns : List Node) (rem : Bool)
    → remove_one version del ns rem ≡ (
      left_nodes version del ns,
      rem || (has_version version del && is_empty (left_nodes version del ns)),
    )
unfolding remove_one
remove_one-left version [] ns rem = ap₂ (λ L b. (L, b)) (sym (select_all ns)) (ground arith)
remove_one-left version (s ∷ ss) ns rem = elim (Bool-cases (teq version s.version)) [
  | inr other ↦
      skipped other
      ∙ remove_one-left version ss ns rem
      ∙ sym (
          ap₂ (λ L h. (L, rem || (h && is_empty L))) (left_skip version s ss ns other)
            (rw other refl))
  | inl same ↦
      taken same
      ∙ remove_one-left version ss cut (if is_empty cut then true else rem)
      ∙ ap₂ (λ L b. (L, b)) (sym (left_cut version s ss ns same))
          (flag_cut version ss cut rem
            ∙ sym (
                ap₂ (λ L h. rem || (h && is_empty L)) (left_cut version s ss ns same) (found same)))
]
  where
    cut : List Node
    cut = del_nodes ns s.nodes

    skipped :
        teq version s.version ≡ false
        → remove_one version (s ∷ ss) ns rem ≡ remove_one version ss ns rem
    skipped other = rw other refl

    found : teq version s.version ≡ true → has_version version (s ∷ ss) ≡ true
    found same = rw same refl

    taken :
        teq version s.version ≡ true
        → remove_one version (s ∷ ss) ns rem
          ≡ remove_one version ss cut (if is_empty cut then true else rem)
    taken same = rw same refl

-- `Remove` leaves of each service the nodes that no service of the same version in the other list has.
-- It drops a service whose version is in the other list and of which nothing is left.
pub remove-remaining : (old del : List Service) → remove old del ≡ remaining old del
unfolding remove remaining
remove-remaining [] del = refl
remove-remaining (o ∷ os) del = rw remove_one-left (
    ap
      (kept_service o (
        left_nodes o.version del o.nodes,
        has_version o.version del && is_empty (left_nodes o.version del o.nodes),
      ))
      (remove-remaining os del))
