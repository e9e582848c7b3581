-- ===== src/Search/Keys.antt =====
-- The keys of a search tree (common/util/search/tree.go): none is empty, so `match` never indexes an
-- empty pattern, and the two maps of a node hold the parameters and the other segments apart.
use realmicro.Common.{
  ℕ, zero, suc, ◌≡◌, refl, Text, List, [], ◌∷◌, ◌++◌, Bool, true, false, Option, none, some, ◌==◌,
  teq, codes, length, arith, Bool-cases, inl, inr,
}
use realmicro.Search.{
  Node, node, Children, no_child, child, Error, cut_slash, new_node, find_child, put_child,
  is_param, children_for, with_children, child_or_new, set_item, put_at, on_cut, child_at, add,
  tree_add,
}

abbrev pub IsNonempty : Text → Type 0
IsNonempty [] = ⊥
IsNonempty (c ∷ t) = Unit

unfoldable mutual
  pub IsKeyed : {A : Type 0} → Node A → Type 0
  IsKeyed (node item statics params) = AreKeyed false statics × AreKeyed true params

  pub AreKeyed : {A : Type 0} → Bool → Children A → Type 0
  AreKeyed b no_child = Unit
  AreKeyed b (child k v cs) = IsNonempty k × (is_param k ≡ b) × IsKeyed v × AreKeyed b cs

module _ {A : Type 0} where
  put_child-AreKeyed :
      (b : Bool) (key : Text) (n : Node A) (cs : Children A)
      → IsNonempty key
      → is_param key ≡ b
      → IsKeyed n
      → AreKeyed b cs
      → AreKeyed b (put_child key n cs)
  unfolding put_child AreKeyed
  put_child-AreKeyed b key n no_child ne e k h = (ne, e, k, tt)
  put_child-AreKeyed b key n (child j v cs) ne e k h = elim (Bool-cases (teq j key)) [
    | inl same ↦ rw same (h.0, h.1, k, h.3)
    | inr other ↦ rw other (h.0, h.1, h.2, put_child-AreKeyed b key n cs ne e k h.3)
  ]

  child_or_new-IsKeyed :
      (b : Bool) (key : Text) (cs : Children A)
      → AreKeyed b cs
      → IsKeyed (child_or_new (find_child key cs))
  unfolding find_child IsKeyed AreKeyed
  child_or_new-IsKeyed b key no_child h = (tt, tt)
  child_or_new-IsKeyed b key (child j v cs) h = elim (Bool-cases (teq j key)) [
    | inl same ↦ rw same h.2
    | inr other ↦ rw other (child_or_new-IsKeyed b key cs h.3)
  ]

  children_for-AreKeyed : (b : Bool) (n : Node A) → IsKeyed n → AreKeyed b (children_for b n)
  unfolding IsKeyed
  children_for-AreKeyed false (node item statics params) h = h.0
  children_for-AreKeyed true (node item statics params) h = h.1

  with_children-IsKeyed :
      (b : Bool) (cs : Children A) (n : Node A)
      → AreKeyed b cs
      → IsKeyed n
      → IsKeyed (with_children b cs n)
  unfolding IsKeyed
  with_children-IsKeyed false cs (node item statics params) h k = (h, k.1)
  with_children-IsKeyed true cs (node item statics params) h k = (k.0, h)

  pub child_at-IsKeyed : (token : Text) (n : Node A) → IsKeyed n → IsKeyed (child_at token n)
  child_at-IsKeyed token n h =
      child_or_new-IsKeyed (is_param token) token (children_for (is_param token) n)
        (children_for-AreKeyed (is_param token) n h)

  put_at-IsKeyed :
      (token : Text) (n : Node A) (r : Node A × Option Error)
      → IsNonempty token
      → IsKeyed r.0
      → IsKeyed n
      → IsKeyed (put_at token n r).0
  put_at-IsKeyed token n (v, e) ne k h =
      with_children-IsKeyed (is_param token) _ n
        (put_child-AreKeyed (is_param token) token v (children_for (is_param token) n) ne refl k
          (children_for-AreKeyed (is_param token) n h))
        h

  set_item-IsKeyed : (item : A) (n : Node A) → IsKeyed n → IsKeyed (set_item item n).0
  unfolding IsKeyed
  set_item-IsKeyed item (node (some a) statics params) h = h
  set_item-IsKeyed item (node none statics params) h = h

-- `cut_slash` cuts at a slash, and keeps the rest.
pub cut_slash-append :
    (t token route : Text) → cut_slash t ≡ some (token, route) → t ≡ token ++ (codes "/" ++ route)
unfolding cut_slash
cut_slash-append [] token route e = absurd (ground arith)
cut_slash-append (c ∷ t) token route e = elim (Bool-cases (c == b'/')) [
  | inl slash ↦ ground arith
  | inr other ↦ go (cut_slash t) refl (cut_slash-append t)
]
  where
    go :
        (o : Option (Text × Text))
        → cut_slash t ≡ o
        → ((token route : Text)
            → cut_slash t ≡ some (token, route)
            → t ≡ token ++ (codes "/" ++ route))
        → c ∷ t ≡ token ++ (codes "/" ++ route)
    go none q ih = ground arith
    go (some (first, rest)) q ih = ground (arith, ih first rest q)

pub cut_slash-IsNonempty :
    (c : ℕ) (t token route : Text)
    → (c == b'/') ≡ false
    → cut_slash (c ∷ t) ≡ some (token, route)
    → IsNonempty token
cut_slash-IsNonempty c t [] route h e = absurd (ground (arith, cut_slash-append (c ∷ t) [] route e))
cut_slash-IsNonempty c t (d ∷ token) route h e = tt

module _ {A : Type 0} where
  add-IsKeyed :
      (fuel : ℕ) (n : Node A) (route : Text) (item : A)
      → IsKeyed n
      → IsKeyed (add fuel n route item).0
  unfolding add
  add-IsKeyed zero n route item h = h
  add-IsKeyed (suc fuel) n [] item h = set_item-IsKeyed item n h
  add-IsKeyed (suc fuel) n (c ∷ t) item h = elim (Bool-cases (c == b'/')) [
    | inl slash ↦ rw slash h
    | inr other ↦
        rw other (go other (cut_slash (c ∷ t)) refl (λ m route. add-IsKeyed fuel m route item))
  ]
    where
      go :
          (c == b'/') ≡ false
          → (o : Option (Text × Text)) → cut_slash (c ∷ t) ≡ o
          → ((m : Node A) (route : Text) → IsKeyed m → IsKeyed (add fuel m route item).0)
          → IsKeyed
              (on_cut o
                (λ token route. put_at token n (add fuel (child_at token n) route item))
                (put_at (c ∷ t) n (set_item item (child_at (c ∷ t) n)))).0
      go other none e ih =
          put_at-IsKeyed (c ∷ t) n (set_item item (child_at (c ∷ t) n)) tt
            (set_item-IsKeyed item (child_at (c ∷ t) n) (child_at-IsKeyed (c ∷ t) n h)) h
      go other (some (token, route)) e ih =
          put_at-IsKeyed token n (add fuel (child_at token n) route item)
            (cut_slash-IsNonempty c t token route other e)
            (ih (child_at token n) route (child_at-IsKeyed token n h)) h

  tree_add-IsKeyed :
      (n : Node A) (route : Text) (item : Option A) → IsKeyed n → IsKeyed (tree_add n route item).0
  unfolding tree_add
  tree_add-IsKeyed n [] item h = h
  tree_add-IsKeyed n (c ∷ route) none h = elim (Bool-cases (c == b'/')) [
    | inl slash ↦ rw slash h
    | inr other ↦ rw other h
  ]
  tree_add-IsKeyed n (c ∷ route) (some item) h = elim (Bool-cases (c == b'/')) [
    | inl slash ↦ rw slash (add-IsKeyed (suc (length route)) n route item h)
    | inr other ↦ rw other h
  ]

  unfoldable pub build : List (Text × Option A) → Node A
  build [] = new_node none
  build ((route, item) ∷ rs) = (tree_add (build rs) route item).0

  -- However routes are added, in success or failure, no pattern in the tree is empty, and a node's
  -- second map holds exactly the segments that begin with a colon.
  pub build-IsKeyed : (routes : List (Text × Option A)) → IsKeyed (build routes)
  unfolding build
  build-IsKeyed [] = unfold IsKeyed AreKeyed in (tt, tt)
  build-IsKeyed ((route, item) ∷ rs) = tree_add-IsKeyed (build rs) route item (build-IsKeyed rs)
