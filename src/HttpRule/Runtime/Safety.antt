-- ===== src/HttpRule/Runtime/Safety.antt =====
-- `Match` (runtime.go) on a pattern that `NewPattern` made: no index or slice is out of range.
use realmicro.Common.{
  ℕ, ◌+◌, ◌-◌, ◌≤◌, ◌<◌, ◌≡◌, ◌≢◌, refl, sym, ◌∙◌, teq, Text, List, [], ◌∷◌, Bool, ltb, length,
  get_elem?, length-drop, length-set, length-replicate, Option, none, some, ℤ, arith, Bool-cases,
  subst, inl, inr,
}
use realmicro.HttpRule.Compiler.{
  OpCode, op_nop, op_push, op_lit_push, op_push_m, op_concat_n, op_capture, op_end,
}
use realmicro.HttpRule.Runtime.{
  Rop, Pattern, new_pattern, Outcome, matched, not_match, panic, Run, run_push, run_lit, run_push_m,
  run_concat, run_capture, run_op, run_ops, start_run, finish, match_components, add_verb, match,
}
use realmicro.HttpRule.Runtime.Stacked.{
  Ready, depth_after, IsStacked, get_elem?-ne-none, new_pattern-IsStacked,
}

-- A run that does not panic, and whose result, if any, satisfies `P`.
abbrev pub Ends {ℓ} : {A : Type ℓ} → (A → Type 0) → Outcome A → Type 0
Ends P (matched a) = P a
Ends P not_match = Unit
Ends P panic = ⊥

abbrev Balanced : Pattern → ℕ → Run → Type 0
Balanced p d r = (length r.stack ≡ d) × (length r.captured ≡ length p.vars)

module _ (p : Pattern) where
  run_push-Ends :
      (rest : List Text) (r : Run)
      → length r.captured ≡ length p.vars
      → Ends (Balanced p (length r.stack + 1)) (run_push p rest r)
  run_push-Ends [] r k = tt
  run_push-Ends (c ∷ rest) r k = (omega arith, k)

  run_lit-Ends :
      (n : ℕ) (lit : Option Text) (rest : List Text) (r : Run)
      → lit ≡ get_elem? p.pool n
      → n < length p.pool
      → length r.captured ≡ length p.vars
      → Ends (Balanced p (length r.stack + 1)) (run_lit p lit rest r)
  run_lit-Ends n lit [] r e h k = tt
  run_lit-Ends n none (c ∷ rest) r e h k = absurd (get_elem?-ne-none p.pool n h (sym e))
  run_lit-Ends n (some lit) (c ∷ rest) r e h k = elim (Bool-cases (teq c lit)) [
    | inl same ↦ rw same (omega arith, k)
    | inr other ↦ rw other tt
  ]

  run_push_m-Ends :
      (r : Run)
      → length r.captured ≡ length p.vars
      → Ends (Balanced p (length r.stack + 1)) (run_push_m p r)
  run_push_m-Ends r k = elim (Bool-cases (ltb (length r.rest) p.tail_len)) [
    | inl short ↦ rw short tt
    | inr fits ↦ rw fits (omega arith, k)
  ]

  run_concat-Ends :
      (n : ℕ) (r : Run)
      → n ≤ length r.stack
      → length r.captured ≡ length p.vars
      → Ends (Balanced p (length r.stack - n + 1)) (run_concat p n r)
  run_concat-Ends n r h k = elim (Bool-cases (ltb (length r.stack) n)) [
    | inl short ↦ absurd (ground arith)
    | inr fits ↦ rw fits (omega (arith, length-drop n r.stack), k)
  ]

  run_capture-Ends :
      (n : ℕ) (stack : List Text) (r : Run)
      → 1 ≤ length stack
      → n < length p.vars
      → length r.captured ≡ length p.vars
      → Ends (Balanced p (length stack - 1)) (run_capture p n stack r)
  run_capture-Ends n [] r h lt k = absurd (omega arith)
  run_capture-Ends n (top ∷ stack) r h lt k = elim (Bool-cases (ltb n (length r.captured))) [
    | inl inside ↦ rw inside (omega arith, length-set r.captured n top ∙ k)
    | inr out ↦ absurd (ground arith)
  ]

  run_op-Ends :
      (c : OpCode) (n : ℕ) (r : Run)
      → Ready p.pool (length p.vars) c n (length r.stack)
      → length r.captured ≡ length p.vars
      → Ends (Balanced p (depth_after c n (length r.stack))) (run_op p c n r)
  run_op-Ends op_nop n r h k = (refl, k)
  run_op-Ends op_push n r h k = run_push-Ends r.rest r k
  run_op-Ends op_lit_push n r h k = run_lit-Ends n (get_elem? p.pool n) r.rest r refl h k
  run_op-Ends op_push_m n r h k = run_push_m-Ends r k
  run_op-Ends op_concat_n n r h k = run_concat-Ends n r h k
  run_op-Ends op_capture n r h k = run_capture-Ends n r.stack r h.0 h.1 k
  run_op-Ends op_end n r h k = (refl, k)

  run_ops-ne-panic :
      (ops : List Rop) (r : Run) (d : ℕ)
      → Balanced p d r
      → IsStacked p.pool (length p.vars) d ops
      → run_ops p ops r ≢ panic
  unfolding run_ops
  run_ops-ne-panic [] r d b w = λ e. ground arith
  run_ops-ne-panic (o ∷ ops) r d b w =
      go (run_op p o.code o.operand r) refl
        (run_op-Ends o.code o.operand r
          (subst (Ready p.pool (length p.vars) o.code o.operand) (sym b.0) w.0) b.1)
        (λ r' b'. run_ops-ne-panic ops r' (depth_after o.code o.operand d) b' w.1)
    where
      go :
          (out : Outcome Run)
          → run_op p o.code o.operand r ≡ out
          → Ends (Balanced p (depth_after o.code o.operand (length r.stack))) out
          → ((r' : Run) → Balanced p (depth_after o.code o.operand d) r' → run_ops p ops r' ≢ panic)
          → run_ops p (o ∷ ops) r ≢ panic
      go (matched r') e f rest = rw (e, run_ops) (rest r' (rw b.0 at f.0, f.1))
      go not_match e f rest = rw (e, run_ops) (λ q. ground arith)
      go panic e f rest = absurd f

  finish-ne-panic : (out : Outcome Run) → out ≢ panic → finish p out ≢ panic
  finish-ne-panic (matched r) h = go r.rest
    where
      go : (rest : List Text) → finish p (matched (record r { rest = rest })) ≢ panic
      go [] = λ e. ground arith
      go (c ∷ cs) = λ e. ground arith
  finish-ne-panic not_match h = λ e. ground arith
  finish-ne-panic panic h = absurd (h refl)

  match_components-ne-panic :
      (components : List Text)
      → IsStacked p.pool (length p.vars) 0 p.ops
      → match_components p components ≢ panic
  unfolding match_components
  match_components-ne-panic components w =
      finish-ne-panic (run_ops p p.ops (start_run p components)) (
        run_ops-ne-panic p.ops (start_run p components) 0
          (refl, length-replicate (length p.vars) []) w)

-- On every path and verb, a pattern that `NewPattern` returns matches or does not match: `Match`
-- never panics on it.
pub match-ne-panic :
    (version : ℕ) (ops : List ℤ) (pool : List Text) (verb : Text) (colon : Bool)
    (components : List Text) (request_verb : Text) {p : Pattern}
    → new_pattern version ops pool verb colon ≡ some p
    → match p components request_verb ≢ panic
unfolding match
match-ne-panic version ops pool verb colon components request_verb {p} h = ground (
  arith,
  match_components-ne-panic p components (new_pattern-IsStacked version ops pool verb colon h),
  match_components-ne-panic p (add_verb components request_verb)
      (new_pattern-IsStacked version ops pool verb colon h),
)
