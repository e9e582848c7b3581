-- ===== src/Common/Strings.antt =====
-- Go's `string`: its bytes. `strings.Join`, `strings.HasPrefix` and equality on them.
use Prim.Native.Char.{code}
use Prim.Native.String.{String}
use Prim.Native.Nat.{ℕ}
use mathlib.Core.Path.{◌≡◌, refl}
use mathlib.Core.Logic.{◌↔◌}
use mathlib.Core.Bool.{Bool, true, false, ◌&&◌}
use mathlib.Core.List.{List, [], ◌∷◌, ◌++◌}
use native.Mathlib.Omega.{arith}
use realmicro.Common.Tests.{◌==◌}

abbrev pub Text : Type 0
Text = List ℕ

-- A literal.
abbrev pub codes : String → Text
codes String.[] = []
codes (String.◌∷◌ c s) = code c ∷ codes s

unfoldable pub teq : Text → Text → Bool
teq [] [] = true
teq [] (y ∷ ys) = false
teq (x ∷ xs) [] = false
teq (x ∷ xs) (y ∷ ys) = x == y && teq xs ys

pub teq_iff : (s t : Text) → (teq s t ≡ true) ↔ (s ≡ t)
unfolding teq
teq_iff [] [] = ground arith
teq_iff [] (y ∷ ys) = ground arith
teq_iff (x ∷ xs) [] = ground arith
teq_iff (x ∷ xs) (y ∷ ys) = ground (arith, teq_iff xs ys)

pub teq_refl : (s : Text) → teq s s ≡ true
teq_refl s = (teq_iff s s).1 refl

unfoldable pub has_prefix : Text → Text → Bool
has_prefix s [] = true
has_prefix [] (p ∷ ps) = false
has_prefix (x ∷ xs) (p ∷ ps) = x == p && has_prefix xs ps

-- strings.Join(elems, sep)
unfoldable pub join : List Text → Text → Text
join [] sep = []
join (x ∷ []) sep = x
join (x ∷ y ∷ r) sep = x ++ (sep ++ join (y ∷ r) sep)

-- strings.Split(s, string(sep)) for a separator of one byte: never empty.
unfoldable pub split_first : ℕ → Text → Text × List Text
split_first sep [] = ([], [])
split_first sep (c ∷ t) =
    let (first, rest) = split_first sep t in
    elim (c == sep) [ true ↦ ([], first ∷ rest) | false ↦ (c ∷ first, rest) ]

unfoldable pub split : ℕ → Text → List Text
unfolding split_first
split sep t = let (first, rest) = split_first sep t in first ∷ rest
