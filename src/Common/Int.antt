-- ===== src/Common/Int.antt =====
-- Go's signed integers without a bound: `negsuc n` is -(n + 1).
use Prim.Native.Nat.{ℕ, suc, ◌+◌, ◌-◌}
use mathlib.Core.Path.{◌≡◌, refl}
use mathlib.Core.Bool.{Bool, true, false}
use native.Mathlib.Omega.{arith}
use realmicro.Common.Tests.{ltb, leb, if◌then◌else◌}

pub data ℤ : Type 0 where
  pos : ℕ → ℤ
  negsuc : ℕ → ℤ

abbrev pub ltb_ℤ : ℤ → ℤ → Bool
ltb_ℤ (pos a) (pos b) = ltb a b
ltb_ℤ (pos a) (negsuc b) = false
ltb_ℤ (negsuc a) (pos b) = true
ltb_ℤ (negsuc a) (negsuc b) = ltb b a

pub ltb_ℤ_trans_ge : (a b c : ℤ) → ltb_ℤ a b ≡ false → ltb_ℤ b c ≡ false → ltb_ℤ a c ≡ false
ltb_ℤ_trans_ge (pos a) (pos b) (pos c) h k = ground arith
ltb_ℤ_trans_ge (pos a) (pos b) (negsuc c) h k = refl
ltb_ℤ_trans_ge (pos a) (negsuc b) c h k = ground arith
ltb_ℤ_trans_ge (negsuc a) (pos b) c h k = ground arith
ltb_ℤ_trans_ge (negsuc a) (negsuc b) (pos c) h k = ground arith
ltb_ℤ_trans_ge (negsuc a) (negsuc b) (negsuc c) h k = ground arith

pub ltb_ℤ_asym : (a b : ℤ) → ltb_ℤ a b ≡ true → ltb_ℤ b a ≡ false
ltb_ℤ_asym (pos a) (pos b) h = ground arith
ltb_ℤ_asym (pos a) (negsuc b) h = ground arith
ltb_ℤ_asym (negsuc a) (pos b) h = refl
ltb_ℤ_asym (negsuc a) (negsuc b) h = ground arith

abbrev pub pos_part : ℤ → ℕ
pos_part (pos n) = n
pos_part (negsuc n) = 0

abbrev pub neg_part : ℤ → ℕ
neg_part (pos n) = 0
neg_part (negsuc n) = suc n

-- a - b, as an integer.
abbrev pub sub_ℕ : ℕ → ℕ → ℤ
sub_ℕ a b = if leb b a then pos (a - b) else negsuc (b - a - 1)

infixl 65 ◌+ℤ◌ ◌-ℤ◌
unfoldable pub ◌+ℤ◌ : ℤ → ℤ → ℤ
a +ℤ b = sub_ℕ (pos_part a + pos_part b) (neg_part a + neg_part b)

unfoldable pub ◌-ℤ◌ : ℤ → ℤ → ℤ
a -ℤ b = sub_ℕ (pos_part a + neg_part b) (neg_part a + pos_part b)
