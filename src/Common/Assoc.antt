-- ===== src/Common/Assoc.antt =====
-- Go's `map[string]V`: an association list with a single entry for a key that is set here. The
-- order of the entries stands for the order in which a `range` over the map happens to run.
use mathlib.Core.Path.{◌≡◌, refl, sym, ap, ◌∙◌}
use mathlib.Core.Logic.{inl, inr}
use mathlib.Core.Bool.{false}
use mathlib.Core.List.{List, [], ◌∷◌}
use mathlib.Core.Option.{Option, none, some}
use native.Mathlib.Omega.{arith}
use realmicro.Common.Tests.{if◌then◌else◌, Bool-cases}
use realmicro.Common.Strings.{Text, teq, teq_iff}

abbrev pub Map {ℓ} : Type ℓ → Type ℓ
Map V = List (Text × V)

teq_sym_false : (s t : Text) → teq s t ≡ false → teq t s ≡ false
teq_sym_false s t h = ground (arith, teq_iff s t, teq_iff t s)

module _ {ℓ} {V : Type ℓ} where
  -- m[k], with the second result of `v, ok := m[k]`
  unfoldable pub lookup : Text → Map V → Option V
  lookup k [] = none
  lookup k ((j, v) ∷ m) = if teq j k then some v else lookup k m

  -- m[k] = v
  unfoldable pub insert : Text → V → Map V → Map V
  insert k v [] = (k, v) ∷ []
  insert k v ((j, w) ∷ m) = let rest = insert k v m in if teq j k then (k, v) ∷ m else (j, w) ∷ rest

  -- delete(m, k)
  unfoldable pub delete : Text → Map V → Map V
  delete k [] = []
  delete k ((j, w) ∷ m) = let rest = delete k m in if teq j k then rest else (j, w) ∷ rest

  pub lookup-insert :
      (k j : Text) (v : V) (m : Map V)
      → lookup j (insert k v m) ≡ (if teq k j then some v else lookup j m)
  unfolding lookup insert
  lookup-insert k j v [] = refl
  lookup-insert k j v ((i, w) ∷ m) =
      ground (arith, teq_iff k j, teq_iff i k, teq_iff i j, lookup-insert k j v m)

  pub lookup-delete :
      (k j : Text) (m : Map V) → lookup j (delete k m) ≡ (if teq k j then none else lookup j m)
  unfolding lookup delete
  lookup-delete k j [] = ground arith
  lookup-delete k j ((i, w) ∷ m) =
      ground (arith, lookup-delete k j m, teq_iff i k, teq_iff i j, teq_iff k j)

  -- No key stands twice, as in a map.
  abbrev pub Distinct : Map V → Type ℓ
  Distinct [] = Unit
  Distinct ((k, v) ∷ m) = (lookup k m ≡ none) × Distinct m

  pub insert-Distinct : (k : Text) (v : V) (m : Map V) → Distinct m → Distinct (insert k v m)
  unfolding insert
  insert-Distinct k v [] d = (unfold lookup in refl, tt)
  insert-Distinct k v ((j, w) ∷ m) d = elim (Bool-cases (teq j k)) [
    | inl e ↦ rw e (ap (λ x. lookup x m) (sym ((teq_iff j k).0 e)) ∙ d.0, d.1)
    | inr e ↦ rw e (lookup-insert k j v m ∙ rw (teq_sym_false j k e) d.0, insert-Distinct k v m d.1)
  ]
