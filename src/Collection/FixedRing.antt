-- ===== src/Collection/FixedRing.antt =====
-- common/util/collection/ring.go: the ring of a fixed size. `nil` is the empty value that a slot holds
-- before the first write; the index is an int of 64 bits, and a negative one is out of range.
pub mod Latest
use realmicro.Common.{
  ℕ, zero, suc, ◌+◌, ◌%◌, ◌^◌, List, [], ◌∷◌, Option, none, some, ℤ, pos, negsuc, ltb, length,
  get_or, set, replicate, if◌then◌else◌,
}

module _ {ℓ} (A : Type ℓ) where
  pub record Ring : Type ℓ where
    pub elements : List A
    pub index : ℕ

module _ {ℓ} {A : Type ℓ} (nil : A) where
  -- `NewRing`; `none` is the panic for a size below 1.
  unfoldable pub new : ℤ → Option (Ring A)
  new (negsuc n) = none
  new (pos zero) = none
  new (pos (suc n)) = some (record { elements = replicate (suc n) nil; index = 0 })

  -- `Add`; `none` is the panic at a negative index.
  unfoldable pub add : Ring A → A → Option (Ring A)
  add r v =
      if ltb r.index (2 ^ 63)
      then some (record {
        elements = set r.elements (r.index % length r.elements) v;
        index = (r.index + 1) % 2 ^ 64;
      })
      else none

  -- The loop of `Take`, with its counter and the rounds left.
  unfoldable pub take_loop : List A → ℕ → ℕ → ℕ → List A
  take_loop elements start i zero = []
  take_loop elements start i (suc k) =
      get_or elements ((start + i) % length elements) nil ∷ take_loop elements start (i + 1) k

  -- `Take` of a ring whose index is not negative.
  unfoldable pub take_all : Ring A → List A
  unfolding take_loop
  take_all r =
      if ltb (length r.elements) r.index
      then take_loop r.elements (r.index % length r.elements) 0 (length r.elements)
      else take_loop r.elements 0 0 r.index
