-- ===== src/Streams/Turned.antt =====
-- `Reverse` of stream.go: the loop that swaps turns the list round.
use realmicro.Common.{
  ℕ, zero, suc, ◌-◌, ◌/◌, ◌≤◌, ◌≡◌, refl, sym, ap, ap₂, ◌∙◌, List, [], ◌∷◌, ◌++◌, some, length,
  get_elem?, set, reverse, arith, length-append, length-take, length-drop, take, drop,
  take-append-drop, reverse-append, append_assoc,
}
use mathlib.Core.List.{reverse-cons, reverse-reverse}
use realmicro.Streams.{swap, swap_with, reverse_loop, reverse_items}

module _ {ℓ} {A : Type ℓ} where
  set-append_length :
      (p : List A) (x v : A) (q : List A) → set (p ++ (x ∷ q)) (length p) v ≡ p ++ (v ∷ q)
  set-append_length [] x v q = refl
  set-append_length (y ∷ p) x v q = ap (◌∷◌ y) (set-append_length p x v q)

  get-append_length :
      (p : List A) (x : A) (q : List A) → get_elem? (p ++ (x ∷ q)) (length p) ≡ some x
  get-append_length [] x q = refl
  get-append_length (y ∷ p) x q = get-append_length p x q

  length-reverse : (xs : List A) → length (reverse xs) ≡ length xs
  length-reverse [] = refl
  length-reverse (x ∷ xs) =
      ap length (reverse-cons x xs)
      ∙ omega (arith, length-append (reverse xs) (x ∷ []), length-reverse xs)

  -- A list is a front, and the items from a position on.
  swap-eq :
      (p m q : List A) (x y : A) (i j : ℕ)
      → i ≡ length p
      → j ≡ length (p ++ (x ∷ m))
      → swap (p ++ (x ∷ (m ++ (y ∷ q)))) i j ≡ p ++ (y ∷ (m ++ (x ∷ q)))
  unfolding swap
  swap-eq p m q x y i j ei ej =
      ap₂ (swap_with items i j) (ap (get_elem? items) ei ∙ get-append_length p x (m ++ (y ∷ q))) (
        ap₂ get_elem? (sym (append_assoc p (x ∷ m) (y ∷ q))) ej
        ∙ get-append_length (p ++ (x ∷ m)) y q)
      ∙ ap (λ l. set l j x) (ap (λ k. set items k y) ei ∙ set-append_length p x y (m ++ (y ∷ q)))
      ∙ ap₂ (λ l k. set l k x) (sym (append_assoc p (y ∷ m) (y ∷ q)))
          (ej ∙ omega (arith, length-append p (x ∷ m), length-append p (y ∷ m)))
      ∙ set-append_length (p ++ (y ∷ m)) y x q
      ∙ append_assoc p (y ∷ m) (x ∷ q)
    where
      items : List A
      items = p ++ (x ∷ (m ++ (y ∷ q)))

  reverse_loop-swaps :
      (k : ℕ) (p m q : List A)
      → length p ≡ k
      → length q ≡ k
      → reverse_loop k (reverse p ++ (m ++ q)) ≡ reverse q ++ (m ++ p)
  unfolding reverse_loop
  reverse_loop-swaps zero [] m [] hp hq = refl
  reverse_loop-swaps zero [] m (y ∷ q) hp hq = absurd (omega arith)
  reverse_loop-swaps zero (x ∷ p) m q hp hq = absurd (omega arith)
  reverse_loop-swaps (suc k) [] m q hp hq = absurd (omega arith)
  reverse_loop-swaps (suc k) (x ∷ p) m [] hp hq = absurd (omega arith)
  reverse_loop-swaps (suc k) (x ∷ p) m (y ∷ q) hp hq =
      ap (λ l. reverse_loop k (swap l k (length l - 1 - k)))
        (ap (λ l. l ++ (m ++ (y ∷ q))) (reverse-cons x p)
          ∙ append_assoc (reverse p) (x ∷ []) (m ++ (y ∷ q)))
      ∙ ap (reverse_loop k) (
          swap-eq (reverse p) m q x y k (length (reverse p ++ (x ∷ (m ++ (y ∷ q)))) - 1 - k)
            (omega (arith, length-reverse p))
            (omega (
              arith,
              length-reverse p,
              length-append (reverse p) (x ∷ (m ++ (y ∷ q))),
              length-append (reverse p) (x ∷ m),
              length-append m (y ∷ q),
            )))
      ∙ ap (λ l. reverse_loop k (reverse p ++ l)) (sym (append_assoc (y ∷ m) (x ∷ []) q))
      ∙ reverse_loop-swaps k p ((y ∷ m) ++ (x ∷ [])) q (omega arith) (omega arith)
      ∙ ap (◌++◌ (reverse q)) (append_assoc (y ∷ m) (x ∷ []) p)
      ∙ sym (append_assoc (reverse q) (y ∷ []) (m ++ (x ∷ p)))
      ∙ ap (λ l. l ++ (m ++ (x ∷ p))) (sym (reverse-cons y q))

  reverse_short : (m : List A) → length m ≤ 1 → reverse m ≡ m
  reverse_short [] h = refl
  reverse_short (x ∷ []) h = refl
  reverse_short (x ∷ y ∷ m) h = absurd (omega arith)

  -- The loop of `Reverse` over the first half of the indices, which swaps the items in place, turns
  -- the stream round.
  pub reverse_items-reverse : (s : List A) → reverse_items s ≡ reverse s
  unfolding reverse_items
  reverse_items-reverse s =
      ap (reverse_loop half) (sym parts)
      ∙ reverse_loop-swaps half (reverse front) middle back
          (length-reverse front ∙ length-take half s ∙ omega arith)
          (length-drop (length s - half - half) (drop half s) ∙ omega (arith, length-drop half s))
      ∙ ap (λ l. reverse back ++ (l ++ reverse front)) (sym (reverse_short middle short))
      ∙ sym (append_assoc (reverse back) (reverse middle) (reverse front))
      ∙ ap (λ l. l ++ reverse front) (sym (reverse-append middle back))
      ∙ sym (reverse-append front (middle ++ back))
      ∙ ap reverse whole
    where
      half : ℕ
      half = length s / 2

      front : List A
      front = take half s

      middle : List A
      middle = take (length s - half - half) (drop half s)

      back : List A
      back = drop (length s - half - half) (drop half s)

      whole : front ++ (middle ++ back) ≡ s
      whole =
          ap (◌++◌ front) (take-append-drop (length s - half - half) (drop half s))
          ∙ take-append-drop half s

      parts : reverse (reverse front) ++ (middle ++ back) ≡ s
      parts = ap (λ l. l ++ (middle ++ back)) (reverse-reverse front) ∙ whole

      short : length middle ≤ 1
      short = omega (arith, length-take (length s - half - half) (drop half s), length-drop half s)
