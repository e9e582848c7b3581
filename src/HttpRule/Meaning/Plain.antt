-- ===== src/HttpRule/Meaning/Plain.antt =====
-- Plain segments of a path template (api/router/util), and lists that are reversed and split.
use mathlib.Core.List.{reverse-cons}
use realmicro.Common.{
  Text, List, [], ◌∷◌, ◌++◌, reverse, false, teq, length, take, drop, length-append, All, arith,
  ◌≡◌, refl, ap, ◌∙◌, subst,
}
use realmicro.HttpRule.Types.{Segments, nil, cons, wildcard, deep_wildcard, literal, variable}
use realmicro.HttpRule.Compiler.{Op}
use realmicro.HttpRule.Meaning.{IsNonempty, IsFlat, IsPlain}

pub IsFlat→IsPlain : (segs : Segments) → IsFlat segs → IsPlain segs
unfolding IsFlat IsPlain
IsFlat→IsPlain nil f = tt
IsFlat→IsPlain (cons wildcard r) f = IsFlat→IsPlain r f
IsFlat→IsPlain (cons deep_wildcard r) f = IsFlat→IsPlain r f
IsFlat→IsPlain (cons (literal l) r) f = (f.0, IsFlat→IsPlain r f.1)
IsFlat→IsPlain (cons (variable path segs) r) f = absurd f

pub nonempty : (t : Text) → IsNonempty t → teq t [] ≡ false
nonempty [] h = absurd h
nonempty (c ∷ t) h = unfold teq in refl

pub length-reverse : (ts : List Text) → length (reverse ts) ≡ length ts
length-reverse [] = refl
length-reverse (t ∷ ts) =
    ap length (reverse-cons t ts)
    ∙ length-append (reverse ts) (t ∷ [])
    ∙ omega (arith, length-reverse ts)

pub All-parts : (P : Op → Type 0) (xs ys : List Op) → All P (xs ++ ys) → All P xs × All P ys
All-parts P [] ys h = (tt, h)
All-parts P (x ∷ xs) ys h = let (front, back) = All-parts P xs ys h.1 in ((h.0, front), back)

-- What a concatenation takes from the stack, and what it leaves.
pub take-reverse :
    (ts st : List Text)
    → (take (length ts) (reverse ts ++ st) ≡ reverse ts)
      × (drop (length ts) (reverse ts ++ st) ≡ st)
take-reverse ts st =
    subst (λ n. (take n (reverse ts ++ st) ≡ reverse ts) × (drop n (reverse ts ++ st) ≡ st))
      (length-reverse ts) (go (reverse ts))
  where
    go : (xs : List Text) → (take (length xs) (xs ++ st) ≡ xs) × (drop (length xs) (xs ++ st) ≡ st)
    go [] = (refl, refl)
    go (x ∷ xs) = (ap (◌∷◌ x) (go xs).0, (go xs).1)
