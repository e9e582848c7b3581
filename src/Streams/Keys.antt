-- ===== src/Streams/Keys.antt =====
-- `Distinct` and `Group` of stream.go, for a key type whose test of equality is right.
use realmicro.Common.{
  ◌≡◌, ◌↔◌, refl, sym, ap, ◌∙◌, List, [], ◌∷◌, ◌++◌, Bool, true, false, not, arith, Bool-cases, inl,
  inr, append_assoc, append-nil, any_of, select, if◌then◌else◌,
}
use realmicro.Streams.{distinct_loop, distinct, add_to_group, group_loop, group}

module _ {ℓ κ} {A : Type ℓ} {K : Type κ} (same : K → K → Bool) (key : A → K) where
  -- The items whose key is no earlier item's: first comes first.
  unfoldable pub firsts : List A → List A
  unfolding select
  firsts [] = []
  firsts (x ∷ s) = x ∷ select (λ y. not (same (key y) (key x))) (firsts s)

  -- The items of one group.
  unfoldable pub members : K → List (K × List A) → List A
  members k [] = []
  members k ((j, items) ∷ groups) = if same k j then items else members k groups

  -- No group has the key.
  abbrev NoGroup : K → List (K × List A) → Type 0
  NoGroup k [] = Unit
  NoGroup k ((j, items) ∷ groups) = (same k j ≡ false) × NoGroup k groups

  -- The groups have different keys, and none is empty.
  abbrev pub Separate : List (K × List A) → Type 0
  Separate [] = Unit
  Separate ((j, []) ∷ groups) = ⊥
  Separate ((j, x ∷ items) ∷ groups) = NoGroup j groups × Separate groups

module _ {ℓ κ} {A : Type ℓ} {K : Type κ} (same : K → K → Bool) (key : A → K)
    (same_iff : (j k : K) → (same j k ≡ true) ↔ (j ≡ k)) where
  -- Not among the keys seen.
  abbrev fresh : List K → A → Bool
  fresh keys y = not (any_of (same (key y)) keys)

  select-fresh_cons :
      (k : K) (keys : List K) (s : List A)
      → select (fresh (k ∷ keys)) s ≡ select (fresh keys) (select (λ y. not (same (key y) k)) s)
  unfolding select
  select-fresh_cons k keys [] = refl
  select-fresh_cons k keys (y ∷ s) = elim (Bool-cases (same (key y) k)) [
    | inl e ↦ rw e (select-fresh_cons k keys s)
    | inr e ↦ rw e (ground (arith, select-fresh_cons k keys s))
  ]

  select-fresh_seen :
      (x : A) (keys : List K) (s : List A)
      → any_of (same (key x)) keys ≡ true
      → select (fresh keys) (select (λ y. not (same (key y) (key x))) s) ≡ select (fresh keys) s
  unfolding select
  select-fresh_seen x keys [] h = refl
  select-fresh_seen x keys (y ∷ s) h = elim (Bool-cases (same (key y) (key x))) [
    | inl e ↦
        let seen : any_of (same (key y)) keys ≡ true =
          ap (λ k. any_of (same k) keys) ((same_iff (key y) (key x)).0 e) ∙ h in
        rw (e, seen) (select-fresh_seen x keys s h)
    | inr e ↦ rw e (ap (λ r. if fresh keys y then y ∷ r else r) (select-fresh_seen x keys s h))
  ]

  distinct_loop-firsts :
      (keys : List K) (s : List A)
      → distinct_loop same key keys s ≡ select (fresh keys) (firsts same key s)
  unfolding distinct_loop firsts select
  distinct_loop-firsts keys [] = refl
  distinct_loop-firsts keys (x ∷ s) = elim (Bool-cases (any_of (same (key x)) keys)) [
    | inl seen ↦
        rw seen
          (distinct_loop-firsts keys s ∙ sym (select-fresh_seen x keys (firsts same key s) seen))
    | inr unseen ↦ rw unseen (
        ap (◌∷◌ x) (
          distinct_loop-firsts (key x ∷ keys) s
          ∙ select-fresh_cons (key x) keys (firsts same key s)))
  ]

  select-all : (s : List A) → select (fresh []) s ≡ s
  unfolding select
  select-all [] = refl
  select-all (x ∷ s) = ap (◌∷◌ x) (select-all s)

  -- `Distinct` keeps exactly the items whose key no earlier item has, in order, where the test of
  -- equality of keys is right.
  pub distinct-firsts : (s : List A) → distinct same key s ≡ firsts same key s
  unfolding distinct
  distinct-firsts s = distinct_loop-firsts [] s ∙ select-all (firsts same key s)

  add_to_group-members :
      (k j : K) (x : A) (groups : List (K × List A))
      → members same key k (add_to_group same key j x groups)
        ≡ (if same k j then members same key k groups ++ (x ∷ []) else members same key k groups)
  unfolding add_to_group members
  add_to_group-members k j x [] = refl
  add_to_group-members k j x ((i, items) ∷ groups) =
      ground (arith, same_iff k j, same_iff k i, same_iff j i, add_to_group-members k j x groups)

  add_to_group-NoGroup :
      (j k : K) (x : A) (groups : List (K × List A))
      → same j k ≡ false
      → NoGroup same key j groups
      → NoGroup same key j (add_to_group same key k x groups)
  unfolding add_to_group
  add_to_group-NoGroup j k x [] ne h = (ne, tt)
  add_to_group-NoGroup j k x ((i, items) ∷ groups) ne h = elim (Bool-cases (same k i)) [
    | inl e ↦ rw e (h.0, h.1)
    | inr e ↦ rw e (h.0, add_to_group-NoGroup j k x groups ne h.1)
  ]

  same-swap : (j k : K) → same j k ≡ false → same k j ≡ false
  same-swap j k h = elim (Bool-cases (same k j)) [
    | inl e ↦ absurd (ground (arith, sym ((same_iff k j).0 e), same_iff j k))
    | inr e ↦ e
  ]

  add_to_group-Separate :
      (k : K) (x : A) (groups : List (K × List A))
      → Separate same key groups
      → Separate same key (add_to_group same key k x groups)
  unfolding add_to_group
  add_to_group-Separate k x [] h = (tt, tt)
  add_to_group-Separate k x ((i, []) ∷ groups) h = absurd h
  add_to_group-Separate k x ((i, y ∷ items) ∷ groups) h = elim (Bool-cases (same k i)) [
    | inl e ↦ rw e (h.0, h.1)
    | inr e ↦ rw e (
        (
          add_to_group-NoGroup i k x groups (same-swap k i e) h.0,
          add_to_group-Separate k x groups h.1,
        ))
  ]

  group_loop-members :
      (k : K) (groups : List (K × List A)) (s : List A)
      → members same key k (group_loop same key groups s)
        ≡ members same key k groups ++ select (λ x. same k (key x)) s
  unfolding group_loop select
  group_loop-members k groups [] = sym (append-nil (members same key k groups))
  group_loop-members k groups (x ∷ s) = elim (Bool-cases (same k (key x))) [
    | inl e ↦ rw e (
        group_loop-members k (add_to_group same key (key x) x groups) s
        ∙ ap (λ l. l ++ select (λ x. same k (key x)) s)
            (add_to_group-members k (key x) x groups ∙ rw e refl)
        ∙ append_assoc (members same key k groups) (x ∷ []) (select (λ x. same k (key x)) s))
    | inr e ↦ rw e (
        group_loop-members k (add_to_group same key (key x) x groups) s
        ∙ ap (λ l. l ++ select (λ x. same k (key x)) s)
            (add_to_group-members k (key x) x groups ∙ rw e refl))
  ]

  group_loop-Separate :
      (groups : List (K × List A)) (s : List A)
      → Separate same key groups
      → Separate same key (group_loop same key groups s)
  unfolding group_loop
  group_loop-Separate groups [] h = h
  group_loop-Separate groups (x ∷ s) h =
      group_loop-Separate (add_to_group same key (key x) x groups) s
        (add_to_group-Separate (key x) x groups h)

  -- The groups of `Group` have different keys and none is empty, and the group of a key has exactly
  -- the items of that key in the order of the stream, where the test of equality of keys is right.
  pub group-members :
      (s : List A)
      → Separate same key (group same key s)
        × ((k : K) → members same key k (group same key s) ≡ select (λ x. same k (key x)) s)
  unfolding group members
  group-members s = (group_loop-Separate [] s tt, λ k. group_loop-members k [] s)
