-- ===== src/HttpRule/Meaning/Running.antt =====
-- `Match` (runtime.go) runs the operations of compiled segments as the segments read the components.
use mathlib.Core.List.{reverse-cons, reverse-reverse}
use realmicro.Common.{
  ℕ, ◌+◌, ◌-◌, ◌≤◌, ◌<◌, Text, List, [], ◌∷◌, ◌++◌, reverse, false, ltb, Option, none, some, teq,
  length, get_elem?, set, take, drop, join, codes, length-append, All, arith, ◌≡◌, refl, sym, ap,
  ap₂, ◌∙◌, Bool-cases, inl, inr, append_assoc, subst, lt→ltb,
}
use realmicro.HttpRule.Types.{
  Segments, nil, cons, wildcard, deep_wildcard, literal, variable, count,
}
use realmicro.HttpRule.Compiler.{
  OpCode, op_lit_push, op_concat_n, op_capture, Op, op_of, compile_segments,
}
use realmicro.HttpRule.Runtime.{
  Rop, Pattern, Outcome, matched, not_match, Run, run_concat, run_capture, run_op, run_ops,
}
use realmicro.HttpRule.Meaning.{Reading, prepend, capture, read_segments, paths, IsFlat, IsPlain}
use realmicro.HttpRule.Meaning.Encoding.{operand_of, IsPooled}
use realmicro.HttpRule.Meaning.Scanning.{rops, names}
use realmicro.HttpRule.Meaning.Plain.{
  IsFlat→IsPlain, nonempty, length-reverse, All-parts, take-reverse,
}
use realmicro.HttpRule.Meaning.Counting.{
  fill, fill-append, length-fill, names-append, names-compile, rops-append, Counts,
  read_segments-Counts,
}

abbrev pub run_of : List Text → List Text → List Text → Run
run_of rest stack captured = record { rest = rest; stack = stack; captured = captured }

module _ (p : Pattern) (index : Text → ℕ) where
  -- The run that goes on after a reading.
  abbrev pub after : List Rop → ℕ → Run → Option Reading → Outcome Run
  after more k r none = not_match
  after more k r (some (ts, caps, rest)) =
      run_ops p more (run_of rest (reverse ts ++ r.stack) (fill r.captured k caps))

  prepend-after :
      (more : List Rop) (k : ℕ) (rest0 rest1 st captured : List Text) (t : Text)
      (o : Option Reading)
      → after more k (run_of rest1 (t ∷ st) captured) o
        ≡ after more k (run_of rest0 st captured) (prepend t [] o)
  prepend-after more k rest0 rest1 st captured t none = refl
  prepend-after more k rest0 rest1 st captured t (some (ts, caps, rest)) =
      ap (λ z. run_ops p more (run_of rest z (fill captured k caps)))
        (sym (append_assoc (reverse ts) (t ∷ []) st) ∙ ap (λ z. z ++ st) (sym (reverse-cons t ts)))

  run_ops-matched :
      (o : Rop) (ops : List Rop) (r r1 : Run)
      → run_op p o.code o.operand r ≡ matched r1
      → run_ops p (o ∷ ops) r ≡ run_ops p ops r1
  unfolding run_ops
  run_ops-matched o ops r r1 e = rw (e, run_ops) refl

  run_ops-not_match :
      (o : Rop) (ops : List Rop) (r : Run)
      → run_op p o.code o.operand r ≡ not_match
      → run_ops p (o ∷ ops) r ≡ not_match
  unfolding run_ops
  run_ops-not_match o ops r e = rw (e, run_ops) refl

  operand_plain : (c : OpCode) (n : ℕ) → operand_of index (op_of c [] n) ≡ n
  unfolding teq
  operand_plain c n = refl

  concat-eq :
      (rest ts st captured : List Text)
      → run_concat p (length ts) (run_of rest (reverse ts ++ st) captured)
        ≡ matched (run_of rest (join ts (codes "/") ∷ st) captured)
  concat-eq rest ts st captured =
      rw (enough, (take-reverse ts st).0, (take-reverse ts st).1, reverse-reverse ts) refl
    where
      enough : ltb (length (reverse ts ++ st)) (length ts) ≡ false
      enough = ground (arith, length-append (reverse ts) st, length-reverse ts)

  capture-eq :
      (i : ℕ) (rest st captured : List Text) (t : Text)
      → i < length captured
      → run_capture p i (t ∷ st) (run_of rest (t ∷ st) captured)
        ≡ matched (run_of rest st (set captured i t))
  capture-eq i rest st captured t h = rw (lt→ltb i (length captured) h) refl

  -- One variable: its texts are joined and stored.
  capture-after :
      (path : Text) (n k : ℕ) (more : List Rop) (rest st captured ts caps : List Text)
      → length ts ≡ n
      → k + length caps < length captured
      → run_ops p
          (rops index (k + length caps) (op_of op_concat_n [] n ∷ (op_of op_capture path 0 ∷ []))
            ++ more)
          (run_of rest (reverse ts ++ st) (fill captured k caps))
        ≡ run_ops p more (run_of rest st (fill captured k (caps ++ (join ts (codes "/") ∷ []))))
  capture-after path n k more rest st captured ts caps e room =
      run_ops-matched
        (record { code = op_concat_n; operand = operand_of index (op_of op_concat_n [] n) }) _ _
        (run_of rest (join ts (codes "/") ∷ st) (fill captured k caps))
        (ap (λ j. run_concat p j (run_of rest (reverse ts ++ st) (fill captured k caps)))
            (operand_plain op_concat_n n ∙ sym e)
          ∙ concat-eq rest ts st (fill captured k caps))
      ∙ run_ops-matched (record { code = op_capture; operand = k + length caps }) more _
          (run_of rest st (set (fill captured k caps) (k + length caps) (join ts (codes "/"))))
          (capture-eq (k + length caps) rest st (fill captured k caps) (join ts (codes "/"))
            (omega (arith, room, length-fill caps captured k)))
      ∙ ap (λ z. run_ops p more (run_of rest st z))
          (sym (fill-append caps (join ts (codes "/") ∷ []) captured k))

  -- The reading of what is behind a variable goes on from its captures.
  after-capture :
      (more : List Rop) (k : ℕ) (rest0 rest1 st captured caps : List Text) (o : Option Reading)
      → after more (k + length caps) (run_of rest1 st (fill captured k caps)) o
        ≡ after more k (run_of rest0 st captured) (capture caps o)
  after-capture more k rest0 rest1 st captured caps none = refl
  after-capture more k rest0 rest1 st captured caps (some (ts, others, rest)) =
      ap (λ z. run_ops p more (run_of rest (reverse ts ++ st) z))
        (sym (fill-append caps others captured k))

  -- The run of the compiled segments follows their reading.
  unfoldable pub Runs : Segments → Type 0
  Runs segs =
      (k : ℕ) (more : List Rop) (rest st captured : List Text)
      → IsPlain segs
      → All (IsPooled p.pool index) (compile_segments segs)
      → k + length (paths segs) ≤ length captured
      → run_ops p (rops index k (compile_segments segs) ++ more) (run_of rest st captured)
        ≡ after more k (run_of rest st captured) (read_segments p.tail_len segs rest)

  nil-Runs : Runs nil
  unfolding Runs compile_segments read_segments
  nil-Runs k more rest st captured plain pooled room = refl

  wildcard-Runs : (r : Segments) → Runs r → Runs (cons wildcard r)
  unfolding Runs compile_segments read_segments IsPlain paths
  wildcard-Runs r ih k more [] st captured plain pooled room = run_ops-not_match _ _ _ refl
  wildcard-Runs r ih k more (c ∷ cs) st captured plain pooled room =
      run_ops-matched _ _ _ (run_of cs (c ∷ st) captured) refl
      ∙ ih k more cs (c ∷ st) captured plain pooled.1 room
      ∙ prepend-after more k (c ∷ cs) cs st captured c (read_segments p.tail_len r cs)

  literal-Runs : (l : Text) (r : Segments) → Runs r → Runs (cons (literal l) r)
  unfolding Runs compile_segments read_segments IsPlain paths
  literal-Runs l r ih k more [] st captured plain pooled room = run_ops-not_match _ _ _ refl
  literal-Runs l r ih k more (c ∷ cs) st captured plain pooled room = elim (Bool-cases (teq c l)) [
    | inl same ↦ rw same (
        run_ops-matched _ _ _ (run_of cs (c ∷ st) captured) (rw (lit_text, same) refl)
        ∙ ih k more cs (c ∷ st) captured plain.1 pooled.1 room
        ∙ prepend-after more k (c ∷ cs) cs st captured c (read_segments p.tail_len r cs))
    | inr other ↦ rw other (run_ops-not_match _ _ _ (rw (lit_text, other) refl))
  ]
    where
      lit_text : get_elem? p.pool (operand_of index (op_of op_lit_push l 0)) ≡ some l
      lit_text = rw (nonempty l plain.0) (pooled.0 (nonempty l plain.0))

  deep-Runs : (r : Segments) → Runs r → Runs (cons deep_wildcard r)
  unfolding Runs compile_segments read_segments IsPlain paths
  deep-Runs r ih k more rest st captured plain pooled room =
      elim (Bool-cases (ltb (length rest) p.tail_len)) [
        | inl short ↦ rw short (run_ops-not_match _ _ _ (rw short refl))
        | inr fits ↦ rw fits (
            run_ops-matched _ _ _ (run_of left (taken ∷ st) captured) (rw fits refl)
            ∙ ih k more left (taken ∷ st) captured plain pooled.1 room
            ∙ prepend-after more k rest left st captured taken (read_segments p.tail_len r left))
      ]
    where
      left : List Text
      left = drop (length rest - p.tail_len) rest

      taken : Text
      taken = join (take (length rest - p.tail_len) rest) (codes "/")

  variable-Runs :
      (path : Text) (segs r : Segments) → Runs segs → Runs r → Runs (cons (variable path segs) r)
  unfolding Runs
  variable-Runs path segs r ih_segs ih k more rest st captured plain pooled room =
      ap (λ z. run_ops p (z ++ more) (run_of rest st captured)) split_ops
      ∙ ap (λ z. run_ops p z (run_of rest st captured))
          (append_assoc (rops index k (compile_segments segs) ++ closing) behind_ops more
            ∙ append_assoc (rops index k (compile_segments segs)) closing (behind_ops ++ more))
      ∙ ih_segs k (closing ++ (behind_ops ++ more)) rest st captured (IsFlat→IsPlain segs parts.0)
          pooled_parts.0 (omega (arith, room_parts))
      ∙ go (read_segments p.tail_len segs rest) refl (read_segments-Counts p.tail_len segs rest)
    where
      closing_ops : List Op
      closing_ops = op_of op_concat_n [] (count segs) ∷ (op_of op_capture path 0 ∷ [])

      at : ℕ
      at = k + length (paths segs)

      whole :
          compile_segments (cons (variable path segs) r)
          ≡ (compile_segments segs ++ closing_ops) ++ compile_segments r
      whole = unfold compile_segments in refl

      parts : IsFlat segs × IsPlain r
      parts = unfold IsPlain in (plain.1, plain.2)

      pooled_parts :
          All (IsPooled p.pool index) (compile_segments segs)
          × All (IsPooled p.pool index) (compile_segments r)
      pooled_parts =
          let (front, back) =
            All-parts (IsPooled p.pool index) (compile_segments segs ++ closing_ops)
              (compile_segments r) (subst (All (IsPooled p.pool index)) whole pooled) in
          ((All-parts (IsPooled p.pool index) (compile_segments segs) closing_ops front).0, back)

      room_parts : k + length (paths segs) + 1 + length (paths r) ≤ length captured
      room_parts = unfold paths in omega (arith, room, length-append (paths segs) (path ∷ paths r))

      named : length (names (compile_segments segs)) ≡ length (paths segs)
      named = ap length (names-compile segs)

      named_all : length (names (compile_segments segs ++ closing_ops)) ≡ length (paths segs) + 1
      named_all =
          ap length (names-append (compile_segments segs) closing_ops)
          ∙ length-append (names (compile_segments segs)) (path ∷ [])
          ∙ omega (arith, named)

      closing : List Rop
      closing = rops index at closing_ops

      behind_ops : List Rop
      behind_ops = rops index (at + 1) (compile_segments r)

      split_ops :
          rops index k (compile_segments (cons (variable path segs) r))
          ≡ (rops index k (compile_segments segs) ++ closing) ++ behind_ops
      split_ops =
          ap (rops index k) whole
          ∙ rops-append index (compile_segments segs ++ closing_ops) (compile_segments r) k
          ∙ ap₂ ◌++◌
              (rops-append index (compile_segments segs) closing_ops k
                ∙ ap (λ j. rops index k (compile_segments segs) ++ rops index (k + j) closing_ops)
                    named)
              (ap (λ j. rops index j (compile_segments r)) (omega (arith, named_all)))

      go :
          (o : Option Reading)
          → read_segments p.tail_len segs rest ≡ o
          → Counts segs o
          → after (closing ++ (behind_ops ++ more)) k (run_of rest st captured) o
            ≡ after more k
                (run_of rest st captured)
                (read_segments p.tail_len (cons (variable path segs) r) rest)
      go none e h = unfold read_segments in rw (e, read_segments) refl
      go (some (ts, caps, rest1)) e h =
          ap
            (λ j.
              run_ops p (rops index (k + j) closing_ops ++ (behind_ops ++ more))
                (run_of rest1 (reverse ts ++ st) (fill captured k caps)))
            (sym counts.0)
          ∙ capture-after path (count segs) k (behind_ops ++ more) rest1 st captured ts caps
              (counts.1 parts.0) (omega (arith, room_parts, counts.0))
          ∙ ih (at + 1) more rest1 st (fill captured k all_caps) parts.1 pooled_parts.1
              (omega (arith, room_parts, length-fill all_caps captured k))
          ∙ ap
              (λ j.
                after more j (run_of rest1 st (fill captured k all_caps))
                  (read_segments p.tail_len r rest1))
              {x = at + 1} {y = k + length all_caps}
              (omega (arith, counts.0, length-append caps (text ∷ [])))
          ∙ after-capture more k rest rest1 st captured all_caps (read_segments p.tail_len r rest1)
          ∙ sym (ap (after more k (run_of rest st captured)) read_eq)
        where
          counts : (length caps ≡ length (paths segs)) × (IsFlat segs → length ts ≡ count segs)
          counts = unfold Counts in h

          text : Text
          text = join ts (codes "/")

          all_caps : List Text
          all_caps = caps ++ (text ∷ [])

          read_eq :
              read_segments p.tail_len (cons (variable path segs) r) rest
              ≡ capture all_caps (read_segments p.tail_len r rest1)
          read_eq = unfold read_segments in rw (e, read_segments) refl

  pub run-segments : (segs : Segments) → Runs segs
  run-segments nil = nil-Runs
  run-segments (cons wildcard r) = wildcard-Runs r (run-segments r)
  run-segments (cons (literal l) r) = literal-Runs l r (run-segments r)
  run-segments (cons deep_wildcard r) = deep-Runs r (run-segments r)
  run-segments (cons (variable path segs) r) =
      variable-Runs path segs r (run-segments segs) (run-segments r)
