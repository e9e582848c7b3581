-- ===== src/Common/Splitting.antt =====
-- `strings.Split` at a separator of one byte takes apart what `strings.Join` puts together.
use Prim.Native.Nat.{ℕ}
use mathlib.Core.Path.{◌≡◌, refl, ap, ◌∙◌}
use mathlib.Core.Bool.{true, false}
use mathlib.Core.List.{List, [], ◌∷◌, ◌++◌}
use realmicro.Common.Tests.{◌==◌, ==_iff}
use realmicro.Common.Lists.{All}
use realmicro.Common.Strings.{Text, split_first, split, join}

-- The separator does not stand in the text.
abbrev pub Lacks : ℕ → Text → Type 0
Lacks sep t = All (λ c. (c == sep) ≡ false) t

same : (n : ℕ) → (n == n) ≡ true
same n = (==_iff n n).1 refl

module _ (sep : ℕ) where
  split_first-step :
      (c : ℕ) (t : Text)
      → (c == sep) ≡ false
      → split_first sep (c ∷ t) ≡ (c ∷ (split_first sep t).0, (split_first sep t).1)
  unfolding split_first
  split_first-step c t h = rw (h, split_first) refl

  split_first-append :
      (a b : Text) → Lacks sep a → split_first sep (a ++ ((sep ∷ []) ++ b)) ≡ (a, split sep b)
  unfolding split split_first
  split_first-append [] b h = rw (same sep, split_first) refl
  split_first-append (c ∷ a) b h =
      split_first-step c (a ++ ((sep ∷ []) ++ b)) h.0
      ∙ ap (λ (p : Text × List Text). (c ∷ p.0, p.1)) (split_first-append a b h.1)

  pub split-append :
      (a b : Text) → Lacks sep a → split sep (a ++ ((sep ∷ []) ++ b)) ≡ a ∷ split sep b
  split-append a b h =
      unfold split in ap (λ (p : Text × List Text). p.0 ∷ p.1) (split_first-append a b h)

  split_first-Lacks : (a : Text) → Lacks sep a → split_first sep a ≡ (a, [])
  unfolding split_first
  split_first-Lacks [] h = refl
  split_first-Lacks (c ∷ a) h =
      split_first-step c a h.0
      ∙ ap (λ (p : Text × List Text). (c ∷ p.0, p.1)) (split_first-Lacks a h.1)

  pub split-Lacks : (a : Text) → Lacks sep a → split sep a ≡ a ∷ []
  split-Lacks a h = unfold split in ap (λ (p : Text × List Text). p.0 ∷ p.1) (split_first-Lacks a h)

  pub split-join :
      (a : Text) (cs : List Text)
      → Lacks sep a
      → All (Lacks sep) cs
      → split sep (join (a ∷ cs) (sep ∷ [])) ≡ a ∷ cs
  unfolding join
  split-join a [] h hs = split-Lacks a h
  split-join a (b ∷ cs) h hs =
      split-append a (join (b ∷ cs) (sep ∷ [])) h ∙ ap (◌∷◌ a) (split-join b cs hs.0 hs.1)
