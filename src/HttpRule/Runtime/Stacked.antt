-- ===== src/HttpRule/Runtime/Stacked.antt =====
-- The loop of `NewPattern` (runtime.go): what its checks say of the program that it builds.
use realmicro.Common.{
  ℕ, zero, suc, ◌+◌, ◌-◌, ◌≤◌, ◌<◌, ◌≡◌, ◌≢◌, refl, ap, sym, Text, List, [], ◌∷◌, ◌++◌, Bool, ltb,
  leb, length, get_elem?, length-append, append-nil, append_assoc, Option, none, some, ℤ, pos,
  negsuc, arith, Bool-cases, Option-cases, subst, inl, inr, ◌==◌,
}
use mathlib.Core.Option.{some-injective}
use realmicro.HttpRule.Compiler.{
  OpCode, op_nop, op_push, op_lit_push, op_push_m, op_concat_n, op_capture, op_end,
}
use realmicro.HttpRule.Runtime.{
  Rop, Pattern, Scan, typed, scan_push, scan_push_m, scan_lit, scan_concat, scan_capture,
  captured_var, scan_op, scan_ops, no_scan, new_pattern,
}

abbrev pub depth_after : OpCode → ℕ → ℕ → ℕ
depth_after op_nop n d = d
depth_after op_push n d = d + 1
depth_after op_lit_push n d = d + 1
depth_after op_push_m n d = d + 1
depth_after op_concat_n n d = d - n + 1
depth_after op_capture n d = d - 1
depth_after op_end n d = d

module _ (pool : List Text) (nvars : ℕ) where
  -- What an operation asks of a stack of `d` texts.
  abbrev pub Ready : OpCode → ℕ → ℕ → Type 0
  Ready op_lit_push n d = n < length pool
  Ready op_concat_n n d = n ≤ d
  Ready op_capture n d = (1 ≤ d) × (n < nvars)
  Ready _ n d = Unit

  abbrev pub IsStacked : ℕ → List Rop → Type 0
  IsStacked d [] = Unit
  IsStacked d (o ∷ ops) = Ready o.code o.operand d × IsStacked (depth_after o.code o.operand d) ops

-- What one round, or the whole loop, of `NewPattern` adds.
pub record Scanned (pool : List Text) (s s' : Scan) : Type 0 where
  pub added : List Rop
  pub typed_eq : s'.typed_ops ≡ s.typed_ops ++ added
  pub vars_le : length s.vars ≤ length s'.vars
  pub stacked :
      (nvars : ℕ) (rest : List Rop)
      → length s'.vars ≤ nvars
      → IsStacked pool nvars s'.stack rest
      → IsStacked pool nvars s.stack (added ++ rest)

Scanned-refl : (pool : List Text) (s : Scan) → Scanned pool s s
Scanned-refl pool s = record {
  added = [];
  typed_eq = sym (append-nil s.typed_ops);
  vars_le = omega arith;
  stacked = λ nvars rest h w. w;
}

get_elem?-lt {ℓ} :
    {A : Type ℓ} (xs : List A) (i : ℕ) (a : A) → get_elem? xs i ≡ some a → i < length xs
get_elem?-lt [] i a h = ground arith
get_elem?-lt (x ∷ xs) zero a h = omega arith
get_elem?-lt (x ∷ xs) (suc i) a h = omega (arith, get_elem?-lt xs i a h)

module _ (pool : List Text) where
  typed-Scanned :
      (c : OpCode) (n : ℕ) (s s1 : Scan)
      → s1.typed_ops ≡ s.typed_ops
      → length s.vars ≤ length s1.vars
      → s1.stack ≡ depth_after c n s.stack
      → ((nvars : ℕ) → length s1.vars ≤ nvars → Ready pool nvars c n s.stack)
      → Scanned pool s (typed c n s1)
  typed-Scanned c n s s1 e v d r = record {
    added = record { code = c; operand = n } ∷ [];
    typed_eq = ap (λ ops. ops ++ (record { code = c; operand = n } ∷ [])) e;
    vars_le = v;
    stacked = λ nvars rest h w. (r nvars h, subst (λ k. IsStacked pool nvars k rest) d w);
  }

  scan_push-Scanned :
      (c : OpCode) (n : ℕ) (s s' : Scan)
      → ((k : ℕ) → depth_after c n k ≡ k + 1)
      → ((nvars : ℕ) → Ready pool nvars c n s.stack)
      → scan_push pool c n s ≡ some s'
      → Scanned pool s s'
  unfolding scan_push
  scan_push-Scanned c n s s' d r h =
      subst (Scanned pool s) (some-injective _ _ h)
        (typed-Scanned c n s _ refl (omega arith) (sym (d s.stack)) (λ nvars _. r nvars))

  scan_push_m-Scanned : (s s' : Scan) → scan_push_m pool s ≡ some s' → Scanned pool s s'
  unfolding scan_push_m
  scan_push_m-Scanned s s' h = elim (Bool-cases s.push_m_seen) [
    | inl seen ↦ absurd (ground arith)
    | inr new ↦
        subst (Scanned pool s) (some-injective _ _ (rw new at h))
          (typed-Scanned op_push_m 0 s _ refl (omega arith) refl (λ nvars _. tt))
  ]

  scan_lit-Scanned : (n : ℤ) (s s' : Scan) → scan_lit pool n s ≡ some s' → Scanned pool s s'
  unfolding scan_lit
  scan_lit-Scanned (negsuc n) s s' h = absurd (ground arith)
  scan_lit-Scanned (pos n) s s' h = elim (Bool-cases (leb (length pool) n)) [
    | inl out ↦ absurd (ground arith)
    | inr inside ↦
        scan_push-Scanned op_lit_push n s s' (λ k. refl) (λ nvars. ground arith) (rw inside at h)
  ]

  scan_concat-Scanned : (n : ℤ) (s s' : Scan) → scan_concat pool n s ≡ some s' → Scanned pool s s'
  unfolding scan_concat
  scan_concat-Scanned (negsuc n) s s' h = absurd (ground arith)
  scan_concat-Scanned (pos n) s s' h = elim (Bool-cases (n == 0)) [
    | inl none_popped ↦ absurd (ground arith)
    | inr some_popped ↦ elim (Bool-cases (ltb s.stack n)) [
      | inl under ↦ absurd (ground arith)
      | inr fits ↦
          subst (Scanned pool s) (some-injective _ _ (rw fits at (rw some_popped at h)))
            (typed-Scanned op_concat_n n s _ refl (omega arith) refl (λ nvars _. ground arith))
    ]
  ]

  captured_var-Scanned :
      (v : Option Text) (s s' : Scan) → captured_var pool v s ≡ some s' → Scanned pool s s'
  captured_var-Scanned none s s' h = absurd (ground arith)
  captured_var-Scanned (some v) s s' h = elim (Bool-cases (s.stack == 0)) [
    | inl under ↦ absurd (ground arith)
    | inr fits ↦ subst (Scanned pool s) (some-injective _ _ (rw fits at h)) (
        typed-Scanned op_capture (length s.vars) s _ refl
          (omega (arith, length-append s.vars (v ∷ []))) refl
          (λ nvars le. ground (arith, length-append s.vars (v ∷ []))))
  ]

  scan_capture-Scanned : (n : ℤ) (s s' : Scan) → scan_capture pool n s ≡ some s' → Scanned pool s s'
  unfolding scan_capture
  scan_capture-Scanned (negsuc n) s s' h = absurd (ground arith)
  scan_capture-Scanned (pos n) s s' h = captured_var-Scanned (get_elem? pool n) s s' h

  scan_op-Scanned : (c n : ℤ) (s s' : Scan) → scan_op pool c n s ≡ some s' → Scanned pool s s'
  unfolding scan_op
  scan_op-Scanned (negsuc c) n s s' h = absurd (ground arith)
  scan_op-Scanned (pos zero) n s s' h =
      subst (Scanned pool s) (some-injective _ _ h) (Scanned-refl pool s)
  scan_op-Scanned (pos (suc zero)) n s s' h =
      scan_push-Scanned op_push 0 s s' (λ k. refl) (λ nvars. tt) h
  scan_op-Scanned (pos (suc (suc zero))) n s s' h = scan_lit-Scanned n s s' h
  scan_op-Scanned (pos (suc (suc (suc zero)))) n s s' h = scan_push_m-Scanned s s' h
  scan_op-Scanned (pos (suc (suc (suc (suc zero))))) n s s' h = scan_concat-Scanned n s s' h
  scan_op-Scanned (pos (suc (suc (suc (suc (suc zero)))))) n s s' h = scan_capture-Scanned n s s' h
  scan_op-Scanned (pos (suc (suc (suc (suc (suc (suc c))))))) n s s' h = absurd (ground arith)

  Scanned-trans : {s s1 s2 : Scan} → Scanned pool s s1 → Scanned pool s1 s2 → Scanned pool s s2
  Scanned-trans {s} {s1} {s2} a b = record {
    added = a.added ++ b.added;
    typed_eq = rw (b.typed_eq, a.typed_eq) (append_assoc s.typed_ops a.added b.added);
    vars_le = omega (arith, a.vars_le, b.vars_le);
    stacked = λ nvars rest h w.
        rw append_assoc
          (a.stacked nvars (b.added ++ rest) (omega (arith, b.vars_le)) (b.stacked nvars rest h w));
  }

  scan_ops-Scanned :
      (ops : List ℤ) (s s' : Scan) → scan_ops pool ops s ≡ some s' → Scanned pool s s'
  unfolding scan_ops
  scan_ops-Scanned [] s s' h = subst (Scanned pool s) (some-injective _ _ h) (Scanned-refl pool s)
  scan_ops-Scanned (c ∷ []) s s' h = absurd (ground arith)
  scan_ops-Scanned (c ∷ (n ∷ ops)) s s' h = elim (Option-cases (scan_op pool c n s)) [
    | inl e ↦ absurd (ground arith)
    | inr (s1, e) ↦
        Scanned-trans (scan_op-Scanned c n s s1 e)
          (scan_ops-Scanned ops s1 s' (rw (e, scan_ops) at h))
  ]

pub get_elem?-ne-none {ℓ} :
    {A : Type ℓ} (xs : List A) (i : ℕ) → i < length xs → get_elem? xs i ≢ none
get_elem?-ne-none [] i h = absurd (omega arith)
get_elem?-ne-none (x ∷ xs) zero h = λ e. ground arith
get_elem?-ne-none (x ∷ xs) (suc i) h = get_elem?-ne-none xs i (omega arith)

-- Every pattern that `NewPattern` returns has a program that never runs out of stack, reads no
-- constant beyond the pool and writes no capture beyond the variables.
pub new_pattern-IsStacked :
    (version : ℕ) (ops : List ℤ) (pool : List Text) (verb : Text) (colon : Bool) {p : Pattern}
    → new_pattern version ops pool verb colon ≡ some p
    → IsStacked p.pool (length p.vars) 0 p.ops
unfolding new_pattern
new_pattern-IsStacked version ops pool verb colon {p} h =
    elim (Option-cases (scan_ops pool ops no_scan)) [
      | inl e ↦ absurd (ground arith)
      | inr (s, e) ↦ ground (arith, from_scan s (scan_ops-Scanned pool ops no_scan s e))
    ]
  where
    from_scan : (s : Scan) → Scanned pool no_scan s → IsStacked pool (length s.vars) 0 s.typed_ops
    from_scan s c =
        rw (c.typed_eq, ← append-nil c.added) (c.stacked (length s.vars) [] (omega arith) tt)
