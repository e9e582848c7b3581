-- ===== src/Search/Literal.antt =====
-- A route with no parameter is found where it was added (common/util/search/tree.go).
use realmicro.Common.{
  ℕ, zero, suc, ◌≡◌, refl, Text, List, [], ◌∷◌, ◌++◌, Bool, true, false, Option, none, some, ◌==◌,
  teq, teq_refl, codes, length, any_of, arith, Bool-cases, inl, inr, subst, Map,
}
use realmicro.Search.{
  Node, node, Children, no_child, child, Error, cut_slash, match, not_found, found, put_child,
  is_param, set_item, put_at, on_cut, child_at, add, tree_add, next, next_children, last_children,
  or_else, on_match, item_of, tree_search,
}
use realmicro.Search.Keys.{
  IsNonempty, IsKeyed, AreKeyed, child_at-IsKeyed, cut_slash-append, cut_slash-IsNonempty, build,
  build-IsKeyed,
}

-- No segment of the route begins with a colon: none holds one.
abbrev pub has_colon : Text → Bool
has_colon route = any_of (λ c. c == b':') route

has_colon-append :
    (s t : Text) → has_colon (s ++ t) ≡ false → (has_colon s ≡ false) × (has_colon t ≡ false)
has_colon-append [] t h = (refl, h)
has_colon-append (c ∷ s) t h = ground (arith, has_colon-append s t)

is_param-literal : (t : Text) → has_colon t ≡ false → is_param t ≡ false
is_param-literal [] h = refl
is_param-literal (c ∷ t) h = ground arith

-- A literal key matches itself alone.
match_self : (key : Text) → IsNonempty key → is_param key ≡ false → match key key ≡ found
unfolding match
match_self [] ne l = absurd ne
match_self (c ∷ t) ne l = rw (l, teq_refl (c ∷ t))

match_same :
    (key token : Text)
    → IsNonempty key
    → is_param key ≡ false
    → teq key token ≡ true
    → match key token ≡ found
unfolding match
match_same [] token ne l same = absurd ne
match_same (c ∷ t) token ne l same = rw (l, same)

match_other :
    (key token : Text) → is_param key ≡ false → teq key token ≡ false → match key token ≡ not_found
unfolding match
match_other [] token l d = refl
match_other (c ∷ t) token l d = rw (l, d)

module _ {A : Type 0} where
  next_children_lem :
      (k : Text) (v : Node A) (cs : Children A) (token route : Text)
      → next_children (child k v cs) token route
        ≡ or_else (on_match (match k token) (next v route)) (next_children cs token route)
  unfolding next_children
  next_children_lem k v cs token route = refl

  -- Looking along the first map for the child that was just put there.
  next_children-put_child :
      (token route : Text) (v : Node A) (r : A × Map Text) (cs : Children A)
      → IsNonempty token
      → is_param token ≡ false
      → AreKeyed false cs
      → next v route ≡ some r
      → next_children (put_child token v cs) token route ≡ some r
  unfolding put_child AreKeyed
  next_children-put_child token route v r no_child ne l k h =
      rw (next_children_lem token v no_child token route, match_self token ne l, h) refl
  next_children-put_child token route v r (child j w cs) ne l k h =
      elim (Bool-cases (teq j token)) [
        | inl same ↦
            rw same
              (rw (next_children_lem j v cs token route, match_same j token k.0 k.1 same, h) refl)
        | inr other ↦ rw other (
            rw
              (
                next_children_lem j w (put_child token v cs) token route,
                match_other j token k.1 other,
              )
              (next_children-put_child token route v r cs ne l k.3 h))
      ]

  last_children-put_child :
      (token : Text) (v : Node A) (item : A) (cs : Children A)
      → IsNonempty token
      → is_param token ≡ false
      → AreKeyed false cs
      → item_of v ≡ some item
      → last_children (put_child token v cs) token ≡ some (item, [])
  unfolding put_child AreKeyed last_children
  last_children-put_child token v item no_child ne l k h = rw (match_self token ne l, h)
  last_children-put_child token v item (child j w cs) ne l k h = elim (Bool-cases (teq j token)) [
    | inl same ↦ rw same (rw (match_same j token k.0 k.1 same, h))
    | inr other ↦
        rw other
          (rw (match_other j token k.1 other) (last_children-put_child token v item cs ne l k.3 h))
  ]

  item_of-set_item :
      (item : A) (n : Node A) → (set_item item n).1 ≡ none → item_of (set_item item n).0 ≡ some item
  item_of-set_item item (node (some a) statics params) h = absurd (ground arith)
  item_of-set_item item (node none statics params) h = refl

  next-item : (n : Node A) (item : A) → item_of n ≡ some item → next n [] ≡ some (item, [])
  unfolding next
  next-item (node i statics params) item h = rw h

  next_lem :
      (i : Option A) (statics params : Children A) (c : ℕ) (t : Text)
      → next (node i statics params) (c ∷ t)
        ≡ on_cut
            (cut_slash (c ∷ t))
            (λ token route.
              or_else (next_children statics token route) (next_children params token route))
            (or_else (last_children statics (c ∷ t)) (last_children params (c ∷ t)))
  unfolding next
  next_lem i statics params c t = refl

  -- A token put in the first map, with the slash found behind it, and without one.
  next-deeper :
      (n : Node A) (v : Node A × Option Error) (c : ℕ) (t token route : Text) (r : A × Map Text)
      → cut_slash (c ∷ t) ≡ some (token, route)
      → IsNonempty token
      → is_param token ≡ false
      → IsKeyed n
      → next v.0 route ≡ some r
      → next (put_at token n v).0 (c ∷ t) ≡ some r
  unfolding IsKeyed
  next-deeper (node i statics params) (v, _) c t token route r e ne l k h = rw l (
      rw
        (
          next_lem i (put_child token v statics) params c t,
          e,
          next_children-put_child token route v r statics ne l k.0 h,
        )
        refl)

  next-last :
      (n : Node A) (v : Node A × Option Error) (c : ℕ) (t : Text) (item : A)
      → cut_slash (c ∷ t) ≡ none
      → is_param (c ∷ t) ≡ false
      → IsKeyed n
      → item_of v.0 ≡ some item
      → next (put_at (c ∷ t) n v).0 (c ∷ t) ≡ some (item, [])
  unfolding IsKeyed
  next-last (node i statics params) (v, _) c t item e l k h = rw l (
      rw
        (
          next_lem i (put_child (c ∷ t) v statics) params c t,
          e,
          last_children-put_child (c ∷ t) v item statics tt l k.0 h,
        )
        refl)

  add-next :
      (fuel : ℕ) (n : Node A) (route : Text) (item : A)
      → IsKeyed n
      → has_colon route ≡ false
      → (add fuel n route item).1 ≡ none
      → next (add fuel n route item).0 route ≡ some (item, [])
  unfolding add
  add-next zero n route item k l e = absurd (ground arith)
  add-next (suc fuel) n [] item k l e =
      next-item (set_item item n).0 item (item_of-set_item item n e)
  add-next (suc fuel) n (c ∷ t) item k l e = elim (Bool-cases (c == b'/')) [
    | inl slash ↦ absurd (ground arith)
    | inr other ↦
        rw other (
          go other (cut_slash (c ∷ t)) refl (rw other at e) (λ m route. add-next fuel m route item))
  ]
    where
      added : Option (Text × Text) → Node A × Option Error
      added o =
          on_cut o (λ token route. put_at token n (add fuel (child_at token n) route item))
            (put_at (c ∷ t) n (set_item item (child_at (c ∷ t) n)))

      go :
          (c == b'/') ≡ false
          → (o : Option (Text × Text)) → cut_slash (c ∷ t) ≡ o
          → (added o).1 ≡ none
          → ((m : Node A) (route : Text)
              → IsKeyed m
              → has_colon route ≡ false
              → (add fuel m route item).1 ≡ none
              → next (add fuel m route item).0 route ≡ some (item, []))
          → next (added o).0 (c ∷ t) ≡ some (item, [])
      go other none q e1 ih =
          next-last n (set_item item (child_at (c ∷ t) n)) c t item q p k
            (item_of-set_item item (child_at (c ∷ t) n) e1)
        where
          p : is_param (c ∷ t) ≡ false
          p = is_param-literal (c ∷ t) l
      go other (some (token, route)) q e1 ih =
          next-deeper n (add fuel (child_at token n) route item) c t token route (item, []) q
            (cut_slash-IsNonempty c t token route other q) p k
            (ih (child_at token n) route (child_at-IsKeyed token n k) parts.1 e1)
        where
          parts : (has_colon token ≡ false) × (has_colon (codes "/" ++ route) ≡ false)
          parts =
              has_colon-append token (codes "/" ++ route)
                (subst (λ x. has_colon x ≡ false) (cut_slash-append (c ∷ t) token route q) l)

          p : is_param token ≡ false
          p = is_param-literal token parts.0

  -- In a tree built by Tree.Add, where a route without a colon is added and no error is reported, a
  -- search for the route gives the item just added and no parameters.
  pub search-add :
      (routes : List (Text × Option A)) (route : Text) (item : A)
      → has_colon route ≡ false
      → (tree_add (build routes) route (some item)).1 ≡ none
      → tree_search (tree_add (build routes) route (some item)).0 route ≡ some (item, [])
  unfolding tree_add tree_search
  search-add routes [] item l e = absurd (ground arith)
  search-add routes (c ∷ t) item l e = elim (Bool-cases (c == b'/')) [
    | inl slash ↦ rw slash (
        add-next (suc (length t)) (build routes) t item (build-IsKeyed routes) (ground (arith, l))
          (rw slash at e))
    | inr other ↦ absurd (ground (arith, e, other))
  ]
