-- ===== src/HttpRule/Meaning/Matching.antt =====
-- Compile, NewPattern and Match together (compile.go, runtime.go) do what the segments say.
use mathlib.Core.Option.{some-injective}
use realmicro.Common.{
  ℕ, ◌+◌, Text, List, [], ◌∷◌, ◌++◌, Bool, true, false, ◌||◌, not, Option, none, some, teq, length,
  set, replicate, length-replicate, if◌then◌else◌, All, All-append, arith, ◌≡◌, refl, sym, ap, ap₂,
  ◌∙◌, append_assoc, append-nil, subst, length-append, Bool-cases, inl, inr,
}
use realmicro.HttpRule.Types.{
  Segments, nil, cons, wildcard, deep_wildcard, literal, variable, Template, count,
}
use realmicro.HttpRule.Compiler.{
  op_concat_n, op_capture, Op, op_of, compile_segments, Emit, emit_all, nothing_emitted, compile,
}
use realmicro.HttpRule.Runtime.{
  Pattern, Scan, no_scan, scan_ops, new_pattern, matched, not_match, run_ops, start_run, finish,
  bind_vars, match_components, add_verb, match,
}
use realmicro.HttpRule.Meaning.{
  Reading, read_segments, paths, singles, has_deep, behind, bound, meaning, IsPlain,
}
use realmicro.HttpRule.Meaning.Encoding.{IsPooled, place, emit_all-encode}
use realmicro.HttpRule.Meaning.Scanning.{rops, tail_steps, IsOp, ScansAll, scan_ops-ScansAll}
use realmicro.HttpRule.Meaning.Counting.{fill, names-compile, Counts, read_segments-Counts}
use realmicro.HttpRule.Meaning.Running.{after, Runs, run-segments}
use realmicro.HttpRule.Meaning.Plain.{nonempty, IsFlat→IsPlain}

compile-IsOp :
    (segs : Segments) → IsPlain segs → All (λ (o : Op). IsOp o.code o.str) (compile_segments segs)
unfolding compile_segments IsPlain
compile-IsOp nil h = tt
compile-IsOp (cons wildcard r) h = (tt, compile-IsOp r h)
compile-IsOp (cons deep_wildcard r) h = (tt, compile-IsOp r h)
compile-IsOp (cons (literal l) r) h = (nonempty l h.0, compile-IsOp r h.1)
compile-IsOp (cons (variable path segs) r) h =
    All-append _ (compile_segments segs ++ _) (compile_segments r)
      (All-append _ (compile_segments segs) _ (compile-IsOp segs (IsFlat→IsPlain segs h.1))
        (tt, (nonempty path h.0, tt)))
      (compile-IsOp r h.2)

tail_steps-append :
    (xs ys : List Op) (t : ℕ × Bool) → tail_steps (xs ++ ys) t ≡ tail_steps ys (tail_steps xs t)
tail_steps-append [] ys t = refl
tail_steps-append (x ∷ xs) ys t = tail_steps-append xs ys _

tail_steps-variable :
    (path : Text) (segs r : Segments) (t : ℕ × Bool)
    → tail_steps (compile_segments (cons (variable path segs) r)) t
      ≡ tail_steps (compile_segments r) (tail_steps (compile_segments segs) t)
unfolding compile_segments
tail_steps-variable path segs r t =
    tail_steps-append (compile_segments segs ++ closing) (compile_segments r) t
    ∙ ap (tail_steps (compile_segments r)) (tail_steps-append (compile_segments segs) closing t)
  where
    closing : List Op
    closing = op_of op_concat_n [] (count segs) ∷ (op_of op_capture path 0 ∷ [])

-- The tail that `NewPattern` counts.
tail_steps-singles :
    (segs : Segments) (n : ℕ)
    → tail_steps (compile_segments segs) (n, true) ≡ (n + singles segs, true)
unfolding compile_segments singles
tail_steps-singles nil n = ap (λ k. (k, true)) {x = n} {y = n + 0} (omega arith)
tail_steps-singles (cons wildcard r) n =
    tail_steps-singles r (n + 1)
    ∙ ap (λ k. (k, true)) {x = n + 1 + singles r} {y = n + (1 + singles r)} (omega arith)
tail_steps-singles (cons deep_wildcard r) n = tail_steps-singles r n
tail_steps-singles (cons (literal l) r) n =
    tail_steps-singles r (n + 1)
    ∙ ap (λ k. (k, true)) {x = n + 1 + singles r} {y = n + (1 + singles r)} (omega arith)
tail_steps-singles (cons (variable path segs) r) n =
    tail_steps-variable path segs r (n, true)
    ∙ ap (tail_steps (compile_segments r)) (tail_steps-singles segs n)
    ∙ tail_steps-singles r (n + singles segs)
    ∙ ap (λ k. (k, true)) {x = n + singles segs + singles r} {y = n + (singles segs + singles r)}
        (omega arith)

behind_none : (segs : Segments) → has_deep segs ≡ false → behind segs ≡ 0
unfolding has_deep behind
behind_none nil h = refl
behind_none (cons wildcard r) h = behind_none r h
behind_none (cons deep_wildcard r) h = absurd (ground arith)
behind_none (cons (literal l) r) h = behind_none r h
behind_none (cons (variable path segs) r) h = elim (Bool-cases (has_deep segs)) [
  | inl deep ↦ absurd (ground (arith, rw deep at h))
  | inr flat ↦ rw flat (behind_none r (rw flat at h))
]

tail_steps-behind :
    (segs : Segments) (n : ℕ)
    → tail_steps (compile_segments segs) (n, false) ≡ (n + behind segs, has_deep segs)
unfolding compile_segments behind has_deep
tail_steps-behind nil n = ap (λ k. (k, false)) {x = n} {y = n + 0} (omega arith)
tail_steps-behind (cons wildcard r) n = tail_steps-behind r n
tail_steps-behind (cons deep_wildcard r) n = tail_steps-singles r n
tail_steps-behind (cons (literal l) r) n = tail_steps-behind r n
tail_steps-behind (cons (variable path segs) r) n =
    tail_steps-variable path segs r (n, false)
    ∙ ap (tail_steps (compile_segments r)) (tail_steps-behind segs n)
    ∙ go (has_deep segs) refl (tail_steps-behind r)
  where
    go :
        (d : Bool)
        → has_deep segs ≡ d
        → ((m : ℕ) → tail_steps (compile_segments r) (m, false) ≡ (m + behind r, has_deep r))
        → tail_steps (compile_segments r) (n + behind segs, has_deep segs) ≡ (
          n + (if has_deep segs then behind segs + singles r else behind r),
          has_deep segs || has_deep r,
        )
    go true e ih = rw e (
        tail_steps-singles r (n + behind segs)
        ∙ ap (λ k. (k, true)) {x = n + behind segs + singles r} {y = n + (behind segs + singles r)}
            (omega arith))
    go false e ih = rw e (
        ih (n + behind segs)
        ∙ ap (λ k. (k, has_deep r)) {x = n + behind segs + behind r} {y = n + behind r}
            (omega (arith, behind_none segs e)))

-- A store of captures that are not read yet is filled with all of them.
set-append : (xs ys : List Text) (y v : Text) → set (xs ++ (y ∷ ys)) (length xs) v ≡ xs ++ (v ∷ ys)
set-append [] ys y v = refl
set-append (x ∷ xs) ys y v = ap (◌∷◌ x) (set-append xs ys y v)

fill-replicate :
    (xs caps : List Text) → fill (xs ++ replicate (length caps) []) (length xs) caps ≡ xs ++ caps
fill-replicate xs [] = refl
fill-replicate xs (c ∷ cs) =
    ap (λ z. fill z (length xs + 1) cs)
      (set-append xs (replicate (length cs) []) [] c
        ∙ sym (append_assoc xs (c ∷ []) (replicate (length cs) [])))
    ∙ ap (λ k. fill ((xs ++ (c ∷ [])) ++ replicate (length cs) []) k cs)
        (sym (length-append xs (c ∷ [])))
    ∙ fill-replicate (xs ++ (c ∷ [])) cs
    ∙ append_assoc xs (c ∷ []) cs

-- What `NewPattern` makes of a compiled template.
record Built (t : Template) (colon : Bool) (p : Pattern) : Type 0 where
  index : Text → ℕ
  ops_eq : p.ops ≡ rops index 0 (compile_segments t.segments)
  vars_eq : p.vars ≡ paths t.segments
  tail_eq : p.tail_len ≡ behind t.segments
  pooled : All (IsPooled p.pool index) (compile_segments t.segments)
  verb_eq : p.verb ≡ t.verb
  colon_eq : p.assume_colon_verb ≡ colon

new_pattern-Built :
    (t : Template) (colon : Bool) {p : Pattern}
    → IsPlain t.segments
    → new_pattern 1 (compile t).op_codes (compile t).pool (compile t).verb colon ≡ some p
    → Built t colon p
unfolding new_pattern compile
new_pattern-Built t colon {p} plain h = go (scan_ops e.pool e.ops no_scan) refl
  where
    os : List Op
    os = compile_segments t.segments

    e : Emit
    e = emit_all os nothing_emitted

    go : (o : Option Scan) → scan_ops e.pool e.ops no_scan ≡ o → Built t colon p
    go none q = absurd (ground (arith, rw (q, new_pattern) at h))
    go (some s) q = subst (Built t colon) (some-injective _ _ (rw (q, new_pattern) at h)) (record {
      index = place e.consts;
      ops_eq = all.typed_eq;
      vars_eq = all.vars_eq ∙ names-compile t.segments;
      tail_eq = ap (λ z. z.0) (all.tail_eq ∙ tail_steps-behind t.segments 0) ∙ omega arith;
      pooled = (emit_all-encode os).1;
      verb_eq = refl;
      colon_eq = refl;
    })
      where
        all : ScansAll (place e.consts) os no_scan s
        all =
            scan_ops-ScansAll e.pool (place e.consts) os no_scan (compile-IsOp t.segments plain)
              (emit_all-encode os).1
              (ap (λ z. scan_ops e.pool z no_scan) (sym (emit_all-encode os).0) ∙ q)

match_components-meaning :
    (t : Template) (colon : Bool) (p : Pattern) (cs : List Text)
    → IsPlain t.segments
    → Built t colon p
    → match_components p cs ≡ meaning t.segments cs
unfolding match_components meaning
match_components-meaning t colon p cs plain b =
    ap (finish p) (
      ap (λ z. run_ops p z (start_run p cs))
        (b.ops_eq ∙ sym (append-nil (rops b.index 0 (compile_segments t.segments))))
      ∙ runs)
    ∙ ap (λ z. finish p (after p b.index [] 0 (start_run p cs) (read_segments z t.segments cs)))
        b.tail_eq
    ∙ go (read_segments (behind t.segments) t.segments cs)
        (read_segments-Counts (behind t.segments) t.segments cs)
  where
    runs :
        run_ops p (rops b.index 0 (compile_segments t.segments) ++ []) (start_run p cs)
        ≡ after p b.index [] 0 (start_run p cs) (read_segments p.tail_len t.segments cs)
    runs =
        unfold Runs in
        run-segments p b.index t.segments 0 [] cs [] (replicate (length p.vars) []) plain b.pooled
          (omega (arith, length-replicate {A = Text} (length p.vars) [], ap length b.vars_eq))

    go :
        (o : Option Reading)
        → Counts t.segments o
        → finish p (after p b.index [] 0 (start_run p cs) o) ≡ bound t.segments o
    go none c = refl
    go (some (ts, caps, x ∷ xs)) c = refl
    go (some (ts, caps, [])) c = ap₂ (λ vs ts. matched (bind_vars vs ts [])) b.vars_eq filled
      where
        as_many : length p.vars ≡ length caps
        as_many = ap length b.vars_eq ∙ sym (unfold Counts in c.0)

        filled : fill (replicate (length p.vars) []) 0 caps ≡ caps
        filled = ap (λ n. fill (replicate n []) 0 caps) as_many ∙ fill-replicate [] caps

match_lem :
    (p : Pattern) (cs : List Text) (verb : Text)
    → match p cs verb ≡ (
        if teq p.verb verb
        then match_components p cs
        else if p.assume_colon_verb || not (teq p.verb [])
        then not_match
        else match_components p (add_verb cs verb))
unfolding match
match_lem p cs verb = refl

-- A template is compiled and made a pattern. Then for every path and verb, `Match` finds what the
-- template's segments say of the path's components, with no opcodes: a match with the text of each
-- variable, or no match. Where the verbs differ it finds no match or, for a template with no verb and
-- where no colon is assumed, takes the verb as part of the last component. The template's literals and
-- paths are not empty, and no variable stands inside of a variable.
pub match-meaning :
    (t : Template) (colon : Bool) (components : List Text) (verb : Text) {p : Pattern}
    → IsPlain t.segments
    → new_pattern 1 (compile t).op_codes (compile t).pool (compile t).verb colon ≡ some p
    → match p components verb ≡ (
        if teq t.verb verb
        then meaning t.segments components
        else if colon || not (teq t.verb [])
        then not_match
        else meaning t.segments (add_verb components verb))
match-meaning t colon components verb {p} plain h =
    match_lem p components verb
    ∙ rw
        (
          match_components-meaning t colon p components plain built,
          match_components-meaning t colon p (add_verb components verb) plain built,
          built.verb_eq,
          built.colon_eq,
        )
        refl
  where
    built : Built t colon p
    built = new_pattern-Built t colon plain h
