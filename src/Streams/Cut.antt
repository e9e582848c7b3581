-- ===== src/Streams/Cut.antt =====
-- The operations of stream.go that cut a stream: Head, Skip, Tail and Split.
use realmicro.Common.{
  ℕ, zero, suc, ◌-◌, ◌^◌, ◌≤◌, ◌<◌, ◌≡◌, refl, sym, ap, ap₂, ◌∙◌, min, List, [], ◌∷◌, ◌++◌, false,
  some, pos, ◌==◌, ==_iff, length, take, drop, arith, Bool-cases, inl, inr, length-append,
  length-take, take-append-drop, append_assoc, append-nil,
}
use realmicro.Collection.Ring.Recent.{last_of}
use realmicro.Collection.FixedRing.Latest.{take_all-add_all}
use realmicro.Streams.{
  head_loop, head, skip_loop, skip, tail, tail_with, take_added, split_loop, split, last_chunk,
}

module _ {ℓ} {A : Type ℓ} where
  head_loop-take : (n : ℕ) (s : List A) → head_loop (suc n) s ≡ take (suc n) s
  unfolding head_loop
  head_loop-take n [] = refl
  head_loop-take zero (x ∷ s) = refl
  head_loop-take (suc n) (x ∷ s) =
      let less : suc (suc n) - 1 ≡ suc n = omega arith in
      let more : (suc n == 0) ≡ false = ground arith in
      rw less (rw more (ap (◌∷◌ x) (head_loop-take n s)))

  skip_loop-drop : (n : ℕ) (s : List A) → skip_loop n s ≡ drop n s
  unfolding skip_loop
  skip_loop-drop zero [] = refl
  skip_loop-drop (suc n) [] = refl
  skip_loop-drop zero (x ∷ s) = ap (◌∷◌ x) (skip_loop-drop zero s)
  skip_loop-drop (suc n) (x ∷ s) = skip_loop-drop n s

  -- For `n` from 1 on, `Head(n)` and `Skip(n)` cut a stream in two: what they give, one after the
  -- other, is the stream, and `Head(n)` gives `n` items, or all where there are fewer.
  pub head-skip :
      (n : ℕ) (s : List A)
      → (h t : List A) × (head (pos (suc n)) s ≡ some h)
        × (skip (pos (suc n)) s ≡ some t)
        × (h ++ t ≡ s)
        × (length h ≡ min (suc n) (length s))
  unfolding head skip
  head-skip n s = (
    head_loop (suc n) s,
    skip_loop (suc n) s,
    refl,
    refl,
    ap₂ ◌++◌ (head_loop-take n s) (skip_loop-drop (suc n) s) ∙ take-append-drop (suc n) s,
    ap length (head_loop-take n s) ∙ length-take (suc n) s,
  )

  -- For `n` from 1 on and a stream of at most 2 ^ 63 items, `Tail(n)`, which runs them through a ring
  -- of size `n`, gives the last `n` items in order, or all where there are fewer.
  pub tail-last_of :
      (nil : A) (n : ℕ) (s : List A)
      → length s ≤ 2 ^ 63
      → tail nil (pos (suc n)) s ≡ some (last_of (suc n) s)
  unfolding tail
  tail-last_of nil n s few =
      let (r, r', made, filled, taken) = take_all-add_all nil n s few in
      ap (λ o. tail_with nil o s) made ∙ ap (take_added nil) filled ∙ ap some taken

  -- The chunks put together.
  unfoldable pub concat : List (List A) → List A
  concat [] = []
  concat (c ∷ cs) = c ++ concat cs

  -- All chunks have `n` items, but for the last, which has 1 to `n`.
  abbrev Chunked : ℕ → List (List A) → Type 0
  Chunked n [] = Unit
  Chunked n (c ∷ []) = (0 < length c) × (length c ≤ n)
  Chunked n (c ∷ d ∷ cs) = (length c ≡ n) × Chunked n (d ∷ cs)

  last_chunk-concat : (chunk : List A) → concat (last_chunk chunk) ≡ chunk
  unfolding concat
  last_chunk-concat [] = refl
  last_chunk-concat (x ∷ xs) = append-nil (x ∷ xs)

  split_loop-concat : (n : ℕ) (chunk s : List A) → concat (split_loop n chunk s) ≡ chunk ++ s
  unfolding split_loop concat
  split_loop-concat n chunk [] = last_chunk-concat chunk ∙ sym (append-nil chunk)
  split_loop-concat n chunk (x ∷ s) = elim (Bool-cases (length (chunk ++ (x ∷ [])) == n)) [
    | inl full ↦
        rw full
          (ap (◌++◌ (chunk ++ (x ∷ []))) (split_loop-concat n [] s) ∙ append_assoc chunk (x ∷ []) s)
    | inr short ↦
        rw short (split_loop-concat n (chunk ++ (x ∷ [])) s ∙ append_assoc chunk (x ∷ []) s)
  ]

  cons-Chunked :
      (n : ℕ) (c : List A) (cs : List (List A))
      → 0 < n
      → length c ≡ n
      → Chunked n cs
      → Chunked n (c ∷ cs)
  cons-Chunked n c [] pos_n e h = (omega arith, omega arith)
  cons-Chunked n c (d ∷ ds) pos_n e h = (e, h)

  split_loop-Chunked :
      (n : ℕ) (chunk s : List A) → length chunk < n → Chunked n (split_loop n chunk s)
  unfolding split_loop
  split_loop-Chunked n [] [] h = tt
  split_loop-Chunked n (c ∷ cs) [] h = (omega arith, omega arith)
  split_loop-Chunked n chunk (x ∷ s) h = elim (Bool-cases (length (chunk ++ (x ∷ [])) == n)) [
    | inl full ↦ rw full (
        cons-Chunked n (chunk ++ (x ∷ [])) (split_loop n [] s) (omega arith)
          ((==_iff (length (chunk ++ (x ∷ []))) n).0 full)
          (split_loop-Chunked n [] s (omega arith)))
    | inr short ↦
        rw short (
          split_loop-Chunked n (chunk ++ (x ∷ [])) s (ground (arith, length-append chunk (x ∷ []))))
  ]

  -- For `n` from 1 on `Split(n)` gives chunks that put together are the stream, each of `n` items but
  -- for the last, which has from 1 to `n`.
  split-Chunked :
      (n : ℕ) (s : List A)
      → (chunks : List (List A)) × (split (pos (suc n)) s ≡ some chunks)
        × (concat chunks ≡ s)
        × Chunked (suc n) chunks
  unfolding split
  split-Chunked n s = (
    split_loop (suc n) [] s,
    refl,
    split_loop-concat (suc n) [] s,
    split_loop-Chunked (suc n) [] s (omega arith),
  )
