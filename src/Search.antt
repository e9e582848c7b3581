-- ===== src/Search.antt =====
-- common/util/search/tree.go: routes in a tree of their segments; a segment that begins with a colon
-- matches any text. A `nil` item is refused by `Add`, so an item is an option in a node only. The
-- lists of children stand for maps, in the order of their iteration.
pub mod Literal
pub mod Keys
use realmicro.Common.{
  ℕ, zero, suc, ◌+◌, Text, List, [], ◌∷◌, Bool, true, false, Option, none, some, ◌==◌, teq, codes,
  Map, insert, if◌then◌else◌, length,
}

mutual
  pub data Node (A : Type 0) : Type 0 where
    node : Option A → Children A → Children A → Node A

  pub data Children (A : Type 0) : Type 0 where
    no_child : Children A
    child : Text → Node A → Children A → Children A

pub data Error : Type 0 where
  dup_item dup_slash empty_item not_from_root no_fuel : Error

-- The text before the first slash and the text after it: the loop `for i := range route`.
unfoldable pub cut_slash : Text → Option (Text × Text)
cut_slash [] = none
cut_slash (c ∷ t) =
    let rest = cut_slash t in
    if c == b'/'
    then some ([], t)
    else elim rest [ none ↦ none | some (token, route) ↦ some (c ∷ token, route) ]

-- `innerResult`: not found, found, or found with a parameter's name and value. The source would
-- panic at an empty pattern, which no tree that `Add` built has.
pub data Inner : Type 0 where
  not_found found : Inner
  named : Text → Text → Inner

unfoldable pub match : Text → Text → Inner
unfolding teq
match [] token = not_found
match (c ∷ pat) token =
    if c == b':' then named pat token else if teq (c ∷ pat) token then found else not_found

-- `Result`
abbrev pub Result : Type 0 → Type 0
Result A = A × Map Text

module _ {A : Type 0} where
  abbrev pub item_of : Node A → Option A
  item_of (node item statics params) = item

  abbrev pub or_else : Option (Result A) → Option (Result A) → Option (Result A)
  or_else none y = y
  or_else (some x) y = some x

  -- `addParam` on a result that was found.
  abbrev pub add_param : Text → Text → Option (Result A) → Option (Result A)
  add_param k v none = none
  add_param k v (some (a, ps)) = some (a, insert k v ps)

  -- What the callbacks of `forEach` make of a match.
  abbrev pub on_match : Inner → Option (Result A) → Option (Result A)
  on_match not_found r = none
  on_match found r = r
  on_match (named k v) r = add_param k v r

  abbrev pub leaf : Option A → Option (Result A)
  leaf none = none
  leaf (some a) = some (a, [])

  -- The last loop of `next`, over one of the two maps.
  unfoldable pub last_children : Children A → Text → Option (Result A)
  last_children no_child route = none
  last_children (child k v cs) route =
      or_else (on_match (match k route) (leaf (item_of v))) (last_children cs route)

-- The loop over the route: what is done at the first slash, or after the loop.
abbrev pub on_cut {ℓ} : {B : Type ℓ} → Option (Text × Text) → (Text → Text → B) → B → B
on_cut none deeper last = last
on_cut (some (token, route)) deeper last = deeper token route

-- `next`, and its callback over one of the two maps.
unfoldable mutual
  pub next : {A : Type 0} → Node A → Text → Option (A × Map Text)
  next (node item statics params) [] =
      or_else (leaf item) (or_else (last_children statics []) (last_children params []))
  next (node item statics params) (c ∷ t) =
      on_cut (cut_slash (c ∷ t))
        (λ token route.
          or_else (next_children statics token route) (next_children params token route))
        (or_else (last_children statics (c ∷ t)) (last_children params (c ∷ t)))

  pub next_children : {A : Type 0} → Children A → Text → Text → Option (A × Map Text)
  next_children no_child token route = none
  next_children (child k v cs) token route =
      or_else (on_match (match k token) (next v route)) (next_children cs token route)

-- `getChildren`: whether the token is one of the second map.
abbrev pub is_param : Text → Bool
is_param [] = false
is_param (c ∷ t) = c == b':'

module _ {A : Type 0} where
  abbrev pub new_node : Option A → Node A
  new_node item = node item no_child no_child

  -- children[key], and children[key] = v
  unfoldable pub find_child : Text → Children A → Option (Node A)
  unfolding teq
  find_child key no_child = none
  find_child key (child k v cs) = if teq k key then some v else find_child key cs

  unfoldable pub put_child : Text → Node A → Children A → Children A
  unfolding teq
  put_child key n no_child = child key n no_child
  put_child key n (child k v cs) =
      let rest = put_child key n cs in if teq k key then child k n cs else child k v rest

  abbrev pub children_for : Bool → Node A → Children A
  children_for false (node item statics params) = statics
  children_for true (node item statics params) = params

  abbrev pub with_children : Bool → Children A → Node A → Node A
  with_children false cs (node item statics params) = node item cs params
  with_children true cs (node item statics params) = node item statics cs

  abbrev pub child_or_new : Option (Node A) → Node A
  child_or_new none = new_node none
  child_or_new (some n) = n

  -- `nd.item = item`, unless there is one
  abbrev pub set_item : A → Node A → Node A × Option Error
  set_item item (node (some a) statics params) = (node (some a) statics params, some dup_item)
  set_item item (node none statics params) = (node (some item) statics params, none)

  abbrev pub put_at : Text → Node A → (Node A × Option Error) → Node A × Option Error
  put_at token n (v, e) =
      (with_children (is_param token) (put_child token v (children_for (is_param token) n)) n, e)

  abbrev pub child_at : Text → Node A → Node A
  child_at token n = child_or_new (find_child token (children_for (is_param token) n))

  -- `add`: the node as it is afterwards, also where an error is returned. The recursive call is on a
  -- shorter route, so the length of the route and one more is fuel enough.
  unfoldable pub add : ℕ → Node A → Text → A → Node A × Option Error
  add zero n route item = (n, some no_fuel)
  add (suc fuel) n [] item = set_item item n
  add (suc fuel) n (c ∷ t) item =
      let deeper =
        λ (token : Text) (route : Text). put_at token n (add fuel (child_at token n) route item) in
      let last = put_at (c ∷ t) n (set_item item (child_at (c ∷ t) n)) in
      if c == b'/' then (n, some dup_slash) else on_cut (cut_slash (c ∷ t)) deeper last

  -- `Tree.Add` and `Tree.Search`, on the root. The error texts of duplicates name the route.
  unfoldable pub tree_add : Node A → Text → Option A → Node A × Option Error
  unfolding add
  tree_add root [] item = (root, some not_from_root)
  tree_add root (c ∷ route) none =
      if c == b'/' then (root, some empty_item) else (root, some not_from_root)
  tree_add root (c ∷ route) (some item) =
      if c == b'/' then add (suc (length route)) root route item else (root, some not_from_root)

  unfoldable pub tree_search : Node A → Text → Option (A × Map Text)
  unfolding next
  tree_search root [] = none
  tree_search root (c ∷ route) = if c == b'/' then next root route else none
