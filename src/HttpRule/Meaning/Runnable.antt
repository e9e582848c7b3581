-- ===== src/HttpRule/Meaning/Runnable.antt =====
-- The segments of a path template (api/router/util) whose program `NewPattern` accepts.
use realmicro.Common.{
  ℕ, zero, suc, ◌+◌, ◌<◌, Text, List, [], ◌∷◌, Bool, true, false, ◌||◌, leb, some, length,
  get_elem?, arith, ◌≡◌, refl,
}
use realmicro.HttpRule.Types.{
  Segments, nil, cons, wildcard, deep_wildcard, literal, variable, count,
}
use realmicro.HttpRule.Meaning.{has_deep, IsFlat}

-- At most one deep wildcard, and no variable without segments.
unfoldable pub IsRunnable : Segments → Type 0
IsRunnable nil = Unit
IsRunnable (cons wildcard r) = IsRunnable r
IsRunnable (cons deep_wildcard r) = (has_deep r ≡ false) × IsRunnable r
IsRunnable (cons (literal l) r) = IsRunnable r
IsRunnable (cons (variable path segs) r) =
    (0 < count segs) × (has_deep segs ≡ true → has_deep r ≡ false) × IsRunnable segs × IsRunnable r

-- How many texts the segments leave on the stack.
unfoldable pub texts : Segments → ℕ
texts nil = 0
texts (cons wildcard r) = 1 + texts r
texts (cons deep_wildcard r) = 1 + texts r
texts (cons (literal l) r) = 1 + texts r
texts (cons (variable path segs) r) = texts r

pub flat-texts : (segs : Segments) → IsFlat segs → texts segs ≡ count segs
unfolding IsFlat texts
flat-texts nil f = refl
flat-texts (cons wildcard r) f = omega (arith, flat-texts r f)
flat-texts (cons deep_wildcard r) f = omega (arith, flat-texts r f)
flat-texts (cons (literal l) r) f = omega (arith, flat-texts r f.1)
flat-texts (cons (variable path segs) r) f = absurd f

pub or_regroup : (a b c : Bool) → ((a || b) || c) ≡ (a || (b || c))
or_regroup a b c = ground arith

pub get_elem?-leb :
    (xs : List Text) (i : ℕ) (x : Text) → get_elem? xs i ≡ some x → leb (length xs) i ≡ false
get_elem?-leb [] i x h = absurd (ground arith)
get_elem?-leb (y ∷ ys) zero x h = ground arith
get_elem?-leb (y ∷ ys) (suc i) x h = ground (arith, get_elem?-leb ys i x h)
