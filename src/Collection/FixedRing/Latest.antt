-- ===== src/Collection/FixedRing/Latest.antt =====
-- The ring (ring.go) holds the items that were added last.
use native.Mathlib.Nat.{mod-add-mod, mod-lt, add-mod_right}
use realmicro.Common.{
  ℕ, zero, suc, ◌+◌, ◌-◌, ◌%◌, ◌^◌, ◌<◌, ◌≤◌, ◌≡◌, ◌≢◌, refl, sym, ap, ap₂, ◌∙◌, subst, List, [],
  ◌∷◌, ◌++◌, Option, none, some, pos, ltb, length, get_or, set, drop, replicate, arith, Bool-cases,
  inl, inr, lt→ltb, ltb→lt, length-append, length-set, length-replicate, append_assoc, append-nil,
}
use realmicro.Collection.RollingWindow.Slots.{mod_below_double}
use realmicro.Collection.Ring.Recent.{last_of}
use realmicro.Collection.FixedRing.{Ring, new, add, take_loop, take_all}

module _ {ℓ} {A : Type ℓ} where
  get_or-set_self : (xs : List A) (i : ℕ) (v d : A) → i < length xs → get_or (set xs i v) i d ≡ v
  get_or-set_self [] i v d h = absurd (omega arith)
  get_or-set_self (x ∷ xs) zero v d h = refl
  get_or-set_self (x ∷ xs) (suc i) v d h = get_or-set_self xs i v d (omega arith)

  get_or-set_ne :
      (xs : List A) (i j : ℕ) (v d : A) → i ≢ j → get_or (set xs i v) j d ≡ get_or xs j d
  get_or-set_ne [] i j v d h = refl
  get_or-set_ne (x ∷ xs) zero zero v d h = absurd (h refl)
  get_or-set_ne (x ∷ xs) zero (suc j) v d h = refl
  get_or-set_ne (x ∷ xs) (suc i) zero v d h = refl
  get_or-set_ne (x ∷ xs) (suc i) (suc j) v d h = get_or-set_ne xs i j v d (λ e. h (ap suc e))

  get_or-append_left :
      (xs ys : List A) (i : ℕ) (d : A) → i < length xs → get_or (xs ++ ys) i d ≡ get_or xs i d
  get_or-append_left [] ys i d h = absurd (omega arith)
  get_or-append_left (x ∷ xs) ys zero d h = refl
  get_or-append_left (x ∷ xs) ys (suc i) d h = get_or-append_left xs ys i d (omega arith)

  get_or-append_length : (xs : List A) (y d : A) → get_or (xs ++ (y ∷ [])) (length xs) d ≡ y
  get_or-append_length [] y d = refl
  get_or-append_length (x ∷ xs) y d = get_or-append_length xs y d

  drop-get_or :
      (xs : List A) (j : ℕ) (d : A) → j < length xs → drop j xs ≡ get_or xs j d ∷ drop (suc j) xs
  drop-get_or [] j d h = absurd (omega arith)
  drop-get_or (x ∷ xs) zero d h = refl
  drop-get_or (x ∷ xs) (suc j) d h = drop-get_or xs j d (omega arith)

  drop-all : (xs : List A) (k : ℕ) → length xs ≤ k → drop k xs ≡ []
  drop-all [] zero h = refl
  drop-all [] (suc k) h = refl
  drop-all (x ∷ xs) zero h = absurd (omega arith)
  drop-all (x ∷ xs) (suc k) h = drop-all xs k (omega arith)

-- Two numbers less than `n` apart have different remainders.
mod-ne_near : (n x d : ℕ) → 0 < d → d < n → (x + d) % n ≢ x % n
mod-ne_near n x d pos_d below e =
    let r : x % n < n = mod-lt x {m = n} (omega arith) in
    let same : (x % n + d) % n ≡ (x + d) % n = mod-add-mod x n d in
    elim (mod_below_double (x % n + d) n (omega arith)) [
      | inl a ↦ omega arith
      | inr b ↦ omega arith
    ]

module _ {ℓ} {A : Type ℓ} (nil : A) where
  unfoldable pub add_all : List A → Ring A → Option (Ring A)
  add_all [] r = some r
  add_all (v ∷ vs) r = elim (add nil r v) [ none ↦ none | some r' ↦ add_all vs r' ]

  -- The ring of size `n` stands after the items `hist`.
  record Holds (n : ℕ) (hist : List A) (r : Ring A) : Type ℓ where
    size : length r.elements ≡ n
    count : r.index ≡ length hist
    recent :
        (j : ℕ)
        → j < length hist
        → length hist ≤ j + n
        → get_or r.elements (j % n) nil ≡ get_or hist j nil

  abbrev added : Ring A → A → Ring A
  added r v = record {
    elements = set r.elements (r.index % length r.elements) v;
    index = (r.index + 1) % 2 ^ 64;
  }

  module _ (n : ℕ) (hist : List A) (r : Ring A) (v : A) (h : Holds n hist r) (pos_n : 0 < n) where
    in_ring : r.index % length r.elements < length r.elements
    in_ring = mod-lt r.index {m = length r.elements} (omega (arith, h.size))

    new_slot : r.index % length r.elements ≡ length hist % n
    new_slot = ap₂ ◌%◌ h.count h.size

    added-recent :
        (j : ℕ)
        → j < length (hist ++ (v ∷ []))
        → length (hist ++ (v ∷ [])) ≤ j + n
        → get_or (added r v).elements (j % n) nil ≡ get_or (hist ++ (v ∷ [])) j nil
    added-recent j below near = elim (Bool-cases (ltb j (length hist))) [
      | inl old ↦
          let lt : j < length hist = ltb→lt j (length hist) old in
          get_or-set_ne r.elements (r.index % length r.elements) (j % n) v nil (λ e.
            mod-ne_near n j (length hist - j) (omega arith)
              (omega (arith, length-append hist (v ∷ [])))
              (ap (λ k. k % n) {x = j + (length hist - j)} {y = length hist} (omega arith)
                ∙ sym new_slot
                ∙ e))
          ∙ h.recent j lt (omega (arith, length-append hist (v ∷ [])))
          ∙ sym (get_or-append_left hist (v ∷ []) j nil lt)
      | inr last ↦
          let is_last : j ≡ length hist = ground (arith, length-append hist (v ∷ [])) in
          ap (λ k. get_or (added r v).elements k nil) (ap (λ k. k % n) is_last ∙ sym new_slot)
          ∙ get_or-set_self r.elements (r.index % length r.elements) v nil in_ring
          ∙ sym (get_or-append_length hist v nil)
          ∙ ap (λ k. get_or (hist ++ (v ∷ [])) k nil) (sym is_last)
    ]

    added-Holds : length hist + 1 < 2 ^ 64 → Holds n (hist ++ (v ∷ [])) (added r v)
    added-Holds few = record {
      size = length-set r.elements (r.index % length r.elements) v ∙ h.size;
      count = omega (arith, h.count, length-append hist (v ∷ []));
      recent = added-recent;
    }

    add-eq : length hist < 2 ^ 63 → add nil r v ≡ some (added r v)
    unfolding add
    add-eq few = rw (lt→ltb r.index (2 ^ 63) (omega (arith, h.count))) refl

  add_all-Holds :
      (n : ℕ) (vs hist : List A) (r : Ring A)
      → 0 < n
      → Holds n hist r
      → length hist + length vs ≤ 2 ^ 63
      → (r' : Ring A) × (add_all vs r ≡ some r') × Holds n (hist ++ vs) r'
  unfolding add_all
  add_all-Holds n [] hist r pos_n h few =
      (r, refl, subst (λ l. Holds n l r) (sym (append-nil hist)) h)
  add_all-Holds n (v ∷ vs) hist r pos_n h few =
      let (r', e, held) =
        add_all-Holds n vs (hist ++ (v ∷ [])) (added r v) pos_n
          (added-Holds n hist r v h pos_n (omega arith))
          (omega (arith, length-append hist (v ∷ []))) in
      (
        r',
        rw (add-eq n hist r v h pos_n (omega arith), add_all) e,
        subst (λ l. Holds n l r') (append_assoc hist (v ∷ []) vs) held,
      )

  module _ (n : ℕ) (hist : List A) (r : Ring A) (h : Holds n hist r) where
    take_loop-drop :
        (start lo i k : ℕ)
        → ((m : ℕ) → (start + m) % n ≡ (lo + m) % n)
        → lo + i + k ≡ length hist
        → length hist ≤ lo + n
        → take_loop nil r.elements start i k ≡ drop (lo + i) hist
    unfolding take_loop
    take_loop-drop start lo i zero congr e near = sym (drop-all hist (lo + i) (omega arith))
    take_loop-drop start lo i (suc k) congr e near =
        ap₂ ◌∷◌
          (ap (λ m. get_or r.elements m nil) (ap (λ m. (start + i) % m) h.size ∙ congr i)
            ∙ h.recent (lo + i) (omega arith) (omega arith))
          (take_loop-drop start lo (i + 1) k congr (omega arith) near
            ∙ ap (λ m. drop m hist) {x = lo + (i + 1)} {y = suc (lo + i)} (omega arith))
        ∙ sym (drop-get_or hist (lo + i) nil (omega arith))

    take_all-last_of : 0 < n → take_all nil r ≡ last_of n hist
    unfolding take_all
    take_all-last_of pos_n = elim (Bool-cases (ltb (length r.elements) r.index)) [
      | inl full ↦ rw full (
          take_loop-drop (r.index % length r.elements) (length hist - n) 0 (length r.elements)
            (λ m. wrapped m (ltb→lt (length r.elements) r.index full))
            (ground (arith, h.size, h.count)) (omega arith)
          ∙ ap (λ k. drop k hist) {x = length hist - n + 0} {y = length hist - n} (omega arith))
      | inr fits ↦ rw fits (
          take_loop-drop 0 0 0 r.index (λ m. refl) (omega (arith, h.count))
            (ground (arith, h.size, h.count))
          ∙ ap (λ k. drop k hist) {x = 0 + 0} {y = length hist - n}
              (ground (arith, h.size, h.count)))
    ]
      where
        wrapped :
            (m : ℕ)
            → length r.elements < r.index
            → (r.index % length r.elements + m) % n ≡ (length hist - n + m) % n
        wrapped m full =
            ap (λ k. (r.index % k + m) % n) h.size
            ∙ mod-add-mod r.index n m
            ∙ ap (λ k. k % n) {x = r.index + m} {y = length hist - n + m + n}
                (omega (arith, h.size, h.count))
            ∙ add-mod_right (length hist - n + m) n

  new-Holds : (n : ℕ) → Holds (suc n) [] (record { elements = replicate (suc n) nil; index = 0 })
  new-Holds n = record {
    size = length-replicate (suc n) nil;
    count = refl;
    recent = λ j below near. absurd (omega arith);
  }

  -- A new ring of a size from 1 on takes any items, up to 2 ^ 63 of them, and `Take` then gives the
  -- last of them in order, as many as the size allows.
  pub take_all-add_all :
      (n : ℕ) (vs : List A)
      → length vs ≤ 2 ^ 63
      → (r r' : Ring A) × (new nil (pos (suc n)) ≡ some r)
        × (add_all vs r ≡ some r')
        × (take_all nil r' ≡ last_of (suc n) vs)
  unfolding new
  take_all-add_all n vs few =
      let r : Ring A = record { elements = replicate (suc n) nil; index = 0 } in
      let (r', e, held) = add_all-Holds (suc n) vs [] r (omega arith) (new-Holds n) (omega arith) in
      (r, r', refl, e, take_all-last_of (suc n) vs r' held (omega arith))
