-- ===== src/HttpRule/Meaning/Counting.antt =====
-- Names, captures and counts of compiled segments (api/router/util), for the run of their operations.
use realmicro.Common.{
  ℕ, suc, ◌+◌, ◌-◌, Text, List, [], ◌∷◌, ◌++◌, ltb, Option, none, some, teq, length, set, take,
  drop, join, codes, length-append, length-set, arith, ◌≡◌, refl, sym, ap, ap₂, ◌∙◌, Bool-cases,
  inl, inr, append_assoc,
}
use realmicro.HttpRule.Types.{
  Segment, Segments, nil, cons, wildcard, deep_wildcard, literal, variable, count,
}
use realmicro.HttpRule.Compiler.{
  OpCode, op_nop, op_end, op_push, op_lit_push, op_push_m, op_concat_n, op_capture, Op, op_of,
  compile_segment, compile_segments,
}
use realmicro.HttpRule.Meaning.{Reading, prepend, capture, read_segments, paths, IsFlat}
use realmicro.HttpRule.Meaning.Encoding.{operand_of}
use realmicro.HttpRule.Meaning.Scanning.{kept_operand, next_var, rops, names, name_of}

-- The compiled operations by clauses.
pub compile_lem :
    (s : Segment) (r : Segments)
    → compile_segments (cons s r) ≡ compile_segment s ++ compile_segments r
unfolding compile_segments
compile_lem s r = refl

-- The captures from the place `k` on.
abbrev pub fill : List Text → ℕ → List Text → List Text
fill captured k [] = captured
fill captured k (c ∷ cs) = fill (set captured k c) (k + 1) cs

pub fill-append :
    (xs ys : List Text) (captured : List Text) (k : ℕ)
    → fill captured k (xs ++ ys) ≡ fill (fill captured k xs) (k + length xs) ys
fill-append [] ys captured k = ap (λ j. fill captured j ys) {x = k} {y = k + 0} (omega arith)
fill-append (x ∷ xs) ys captured k =
    fill-append xs ys (set captured k x) (k + 1)
    ∙ ap (λ j. fill (fill (set captured k x) (k + 1) xs) j ys) {x = k + 1 + length xs}
        {y = k + suc (length xs)} (omega arith)

pub length-fill :
    (xs : List Text) (captured : List Text) (k : ℕ) → length (fill captured k xs) ≡ length captured
length-fill [] captured k = refl
length-fill (x ∷ xs) captured k =
    length-fill xs (set captured k x) (k + 1) ∙ length-set captured k x

pub names-append : (xs ys : List Op) → names (xs ++ ys) ≡ names xs ++ names ys
names-append [] ys = refl
names-append (x ∷ xs) ys =
    ap (λ z. name_of x.code x.str ++ z) (names-append xs ys)
    ∙ sym (append_assoc (name_of x.code x.str) (names xs) (names ys))

pub names-compile : (segs : Segments) → names (compile_segments segs) ≡ paths segs
unfolding compile_segments paths
names-compile nil = refl
names-compile (cons wildcard r) = names-compile r
names-compile (cons deep_wildcard r) = names-compile r
names-compile (cons (literal l) r) = names-compile r
names-compile (cons (variable path segs) r) =
    names-append
      (compile_segments segs
        ++ (op_of op_concat_n [] (count segs) ∷ (op_of op_capture path 0 ∷ [])))
      (compile_segments r)
    ∙ ap (λ z. z ++ names (compile_segments r))
        (names-append (compile_segments segs)
          (op_of op_concat_n [] (count segs) ∷ (op_of op_capture path 0 ∷ [])))
    ∙ append_assoc (names (compile_segments segs)) (path ∷ []) (names (compile_segments r))
    ∙ ap₂ (λ a b. a ++ (path ∷ b)) (names-compile segs) (names-compile r)

pub next_var-eq : (c : OpCode) (x : Text) (k : ℕ) → next_var c k ≡ k + length (name_of c x)
next_var-eq op_nop x k = omega arith
next_var-eq op_push x k = omega arith
next_var-eq op_lit_push x k = omega arith
next_var-eq op_push_m x k = omega arith
next_var-eq op_concat_n x k = omega arith
next_var-eq op_capture x k = omega arith
next_var-eq op_end x k = omega arith

pub rops-append :
    (index : Text → ℕ) (xs ys : List Op) (k : ℕ)
    → rops index k (xs ++ ys) ≡ rops index k xs ++ rops index (k + length (names xs)) ys
rops-append index [] ys k = ap (λ j. rops index j ys) {x = k} {y = k + 0} (omega arith)
rops-append index (x ∷ xs) ys k =
    ap (◌∷◌ (record { code = x.code; operand = kept_operand x.code (operand_of index x) k })) (
      rops-append index xs ys (next_var x.code k)
      ∙ ap (λ j. rops index (next_var x.code k) xs ++ rops index j ys)
          (omega
            (arith, next_var-eq x.code x.str k, length-append (name_of x.code x.str) (names xs))))

-- A reading has as many captures as there are variables, and of flat segments as many texts as there are
-- segments.
unfoldable pub Counts : Segments → Option Reading → Type 0
Counts segs none = Unit
Counts segs (some (ts, caps, rest)) =
    (length caps ≡ length (paths segs)) × (IsFlat segs → length ts ≡ count segs)

prepend-Counts :
    (segs r : Segments) (t : Text) (o : Option Reading)
    → length (paths r) ≡ length (paths segs)
    → (IsFlat segs → IsFlat r)
    → count segs ≡ suc (count r)
    → Counts r o
    → Counts segs (prepend t [] o)
unfolding Counts
prepend-Counts segs r t none same flat one h = tt
prepend-Counts segs r t (some (ts, caps, rest)) same flat one h =
    (h.0 ∙ same, λ f. ap suc (h.1 (flat f)) ∙ sym one)

variable-Counts :
    (path : Text) (segs r : Segments) (ts caps : List Text) (t : Text) (o : Option Reading)
    → length caps ≡ length (paths segs)
    → Counts r o
    → Counts (cons (variable path segs) r) (capture (caps ++ (t ∷ [])) o)
unfolding Counts paths IsFlat
variable-Counts path segs r ts caps t none e h = tt
variable-Counts path segs r ts caps t (some (us, more, rest)) e h = (
  omega (
    arith,
    e,
    h.0,
    length-append (caps ++ (t ∷ [])) more,
    length-append caps (t ∷ []),
    length-append (paths segs) (path ∷ paths r),
  ),
  λ f. absurd f,
)

pub read_segments-Counts :
    (tail : ℕ) (segs : Segments) (cs : List Text) → Counts segs (read_segments tail segs cs)
unfolding read_segments
read_segments-Counts tail nil cs = unfold Counts paths in (refl, λ _. refl)
read_segments-Counts tail (cons wildcard r) [] = unfold Counts in tt
read_segments-Counts tail (cons wildcard r) (c ∷ cs) =
    prepend-Counts (cons wildcard r) r c (read_segments tail r cs) (unfold paths in refl)
      (unfold IsFlat in (λ f. f)) refl (read_segments-Counts tail r cs)
read_segments-Counts tail (cons (literal l) r) [] = unfold Counts in tt
read_segments-Counts tail (cons (literal l) r) (c ∷ cs) = elim (Bool-cases (teq c l)) [
  | inl same ↦ rw same (
      prepend-Counts (cons (literal l) r) r c (read_segments tail r cs) (unfold paths in refl)
        (unfold IsFlat in (λ f. f.1)) refl (read_segments-Counts tail r cs))
  | inr other ↦ rw other (unfold Counts in tt)
]
read_segments-Counts tail (cons deep_wildcard r) cs = elim (Bool-cases (ltb (length cs) tail)) [
  | inl short ↦ rw short (unfold Counts in tt)
  | inr fits ↦ rw fits (
      prepend-Counts (cons deep_wildcard r) r (join (take (length cs - tail) cs) (codes "/"))
        (read_segments tail r (drop (length cs - tail) cs)) (unfold paths in refl)
        (unfold IsFlat in (λ f. f)) refl (read_segments-Counts tail r (drop (length cs - tail) cs)))
]
read_segments-Counts tail (cons (variable path segs) r) cs =
    go (read_segments tail segs cs) refl (read_segments-Counts tail segs cs)
      (λ rest. read_segments-Counts tail r rest)
  where
    go :
        (o : Option Reading)
        → read_segments tail segs cs ≡ o
        → Counts segs o
        → ((rest : List Text) → Counts r (read_segments tail r rest))
        → Counts (cons (variable path segs) r) (read_segments tail (cons (variable path segs) r) cs)
    go none e h ih = rw (e, read_segments) (unfold Counts in tt)
    go (some (ts, caps, rest)) e h ih =
        rw (e, read_segments)
          (variable-Counts path segs r ts caps (join ts (codes "/")) (read_segments tail r rest)
            (caps_eq h) (ih rest))
      where
        caps_eq : Counts segs (some (ts, caps, rest)) → length caps ≡ length (paths segs)
        caps_eq h = unfold Counts in h.0
