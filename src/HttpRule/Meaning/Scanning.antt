-- ===== src/HttpRule/Meaning/Scanning.antt =====
-- What the loop of `NewPattern` (runtime.go) makes of encoded operations.
use mathlib.Core.Option.{some-injective}
use realmicro.Common.{
  ℕ, ◌+◌, Text, List, [], ◌∷◌, ◌++◌, Bool, true, false, ◌==◌, leb, ltb, Option, none, some, teq,
  length, get_elem?, length-append, if◌then◌else◌, All, pos, arith, ◌≡◌, refl, sym, ap, ap₂, ◌∙◌,
  Bool-cases, inl, inr, append_assoc, append-nil, subst,
}
use realmicro.HttpRule.Compiler.{
  OpCode, opcode_int, op_nop, op_push, op_lit_push, op_push_m, op_concat_n, op_capture, op_end, Op,
}
use realmicro.HttpRule.Runtime.{
  Rop, Scan, scan_push, scan_push_m, scan_lit, scan_concat, scan_capture, scan_op, scan_ops,
}
use realmicro.HttpRule.Meaning.Encoding.{operand_of, encode, IsPooled}

-- The operand that is kept: a capture has the number of its variable.
abbrev pub kept_operand : OpCode → ℕ → ℕ → ℕ
kept_operand op_lit_push n k = n
kept_operand op_concat_n n k = n
kept_operand op_capture n k = k
kept_operand _ n k = 0

abbrev pub next_var : OpCode → ℕ → ℕ
next_var op_capture k = k + 1
next_var _ k = k

abbrev pub name_of : OpCode → Text → List Text
name_of op_capture s = s ∷ []
name_of _ s = []

-- The count of the tail, and whether a deep wildcard was seen.
abbrev pub single : ℕ × Bool → ℕ × Bool
single (n, true) = (n + 1, true)
single (n, false) = (n, false)

abbrev pub tail_step : OpCode → ℕ × Bool → ℕ × Bool
tail_step op_push t = single t
tail_step op_lit_push t = single t
tail_step op_push_m (n, seen) = (n, true)
tail_step _ t = t

abbrev pub rops : (Text → ℕ) → ℕ → List Op → List Rop
rops index k [] = []
rops index k (o ∷ os) =
    record { code = o.code; operand = kept_operand o.code (operand_of index o) k }
    ∷ rops index (next_var o.code k) os

abbrev pub names : List Op → List Text
names [] = []
names (o ∷ os) = name_of o.code o.str ++ names os

abbrev pub tail_steps : List Op → ℕ × Bool → ℕ × Bool
tail_steps [] t = t
tail_steps (o ∷ os) t = tail_steps os (tail_step o.code t)

-- A compiled operation is no `OpNop`, and a capture or a literal has a text.
abbrev pub IsOp : OpCode → Text → Type 0
IsOp op_nop s = ⊥
IsOp op_capture s = teq s [] ≡ false
IsOp op_lit_push s = teq s [] ≡ false
IsOp _ s = Unit

record Scans (c : OpCode) (n : ℕ) (x : Text) (s s' : Scan) : Type 0 where
  typed_eq :
      s'.typed_ops
      ≡ s.typed_ops ++ (record { code = c; operand = kept_operand c n (length s.vars) } ∷ [])
  vars_eq : s'.vars ≡ s.vars ++ name_of c x
  tail_eq : (s'.tail_len, s'.push_m_seen) ≡ tail_step c (s.tail_len, s.push_m_seen)

module _ (pool : List Text) where
  scan_push-Scans :
      (c : OpCode) (n : ℕ) (x : Text) (s : Scan)
      → tail_step c (s.tail_len, s.push_m_seen) ≡ single (s.tail_len, s.push_m_seen)
      → name_of c x ≡ []
      → {s' : Scan} → scan_push pool c (kept_operand c n (length s.vars)) s ≡ some s'
      → Scans c n x s s'
  unfolding scan_push
  scan_push-Scans c n x s t no_name {s'} h = subst (Scans c n x s) (some-injective _ _ h) (record {
    typed_eq = refl;
    vars_eq = sym (append-nil s.vars) ∙ ap (λ z. s.vars ++ z) (sym no_name);
    tail_eq = counted s.push_m_seen ∙ sym t;
  })
    where
      counted :
          (seen : Bool)
          → (if seen then s.tail_len + 1 else s.tail_len, seen) ≡ single (s.tail_len, seen)
      counted true = refl
      counted false = refl

  scan_lit-Scans :
      (n : ℕ) (x : Text) (s : Scan) {s' : Scan}
      → scan_lit pool (pos n) s ≡ some s'
      → Scans op_lit_push n x s s'
  unfolding scan_lit
  scan_lit-Scans n x s h = elim (Bool-cases (leb (length pool) n)) [
    | inl beyond ↦ absurd (ground (arith, rw beyond at h))
    | inr within ↦ scan_push-Scans op_lit_push n x s refl refl (rw within at h)
  ]

  scan_push_m-Scans :
      (n : ℕ) (x : Text) (s : Scan) {s' : Scan}
      → scan_push_m pool s ≡ some s'
      → Scans op_push_m n x s s'
  unfolding scan_push_m
  scan_push_m-Scans n x s {s'} h = elim (Bool-cases s.push_m_seen) [
    | inl twice ↦ absurd (ground (arith, rw twice at h))
    | inr once ↦
        subst (Scans op_push_m n x s) (some-injective _ _ (rw once at h))
          (record { typed_eq = refl; vars_eq = sym (append-nil s.vars); tail_eq = refl })
  ]

  scan_concat-Scans :
      (n : ℕ) (x : Text) (s : Scan) {s' : Scan}
      → scan_concat pool (pos n) s ≡ some s'
      → Scans op_concat_n n x s s'
  unfolding scan_concat
  scan_concat-Scans n x s {s'} h = elim (Bool-cases (n == 0)) [
    | inl nothing ↦ absurd (ground (arith, rw nothing at h))
    | inr something ↦ elim (Bool-cases (ltb s.stack n)) [
      | inl underflow ↦ absurd (ground (arith, rw (something, underflow) at h))
      | inr fits ↦
          subst (Scans op_concat_n n x s) (some-injective _ _ (rw (something, fits) at h))
            (record { typed_eq = refl; vars_eq = sym (append-nil s.vars); tail_eq = refl })
    ]
  ]

  scan_capture-Scans :
      (n : ℕ) (x : Text) (s : Scan) {s' : Scan}
      → get_elem? pool n ≡ some x
      → scan_capture pool (pos n) s ≡ some s'
      → Scans op_capture n x s s'
  unfolding scan_capture
  scan_capture-Scans n x s {s'} p h = elim (Bool-cases (s.stack == 0)) [
    | inl underflow ↦ absurd (ground (arith, rw (p, underflow) at h))
    | inr fits ↦
        subst (Scans op_capture n x s) (some-injective _ _ (rw (p, fits) at h))
          (record { typed_eq = refl; vars_eq = refl; tail_eq = refl })
  ]

  scan_op-Scans :
      (c : OpCode) (n : ℕ) (x : Text) (s : Scan)
      → IsOp c x
      → (teq x [] ≡ false → get_elem? pool n ≡ some x)
      → {s' : Scan} → scan_op pool (pos (opcode_int c)) (pos n) s ≡ some s'
      → Scans c n x s s'
  unfolding scan_op
  scan_op-Scans op_nop n x s ok p h = absurd ok
  scan_op-Scans op_end n x s ok p h = absurd (ground arith)
  scan_op-Scans op_push n x s ok p h = scan_push-Scans op_push n x s refl refl h
  scan_op-Scans op_lit_push n x s ok p h = scan_lit-Scans n x s h
  scan_op-Scans op_push_m n x s ok p h = scan_push_m-Scans n x s h
  scan_op-Scans op_concat_n n x s ok p h = scan_concat-Scans n x s h
  scan_op-Scans op_capture n x s ok p h = scan_capture-Scans n x s (p ok) h

-- The whole program: what `NewPattern` keeps of it.
pub record ScansAll (index : Text → ℕ) (os : List Op) (s s' : Scan) : Type 0 where
  pub typed_eq : s'.typed_ops ≡ s.typed_ops ++ rops index (length s.vars) os
  pub vars_eq : s'.vars ≡ s.vars ++ names os
  pub tail_eq : (s'.tail_len, s'.push_m_seen) ≡ tail_steps os (s.tail_len, s.push_m_seen)

length-next_var :
    (c : OpCode) (x : Text) (vars : List Text)
    → length (vars ++ name_of c x) ≡ next_var c (length vars)
length-next_var op_nop x vars = ap length (append-nil vars)
length-next_var op_push x vars = ap length (append-nil vars)
length-next_var op_lit_push x vars = ap length (append-nil vars)
length-next_var op_push_m x vars = ap length (append-nil vars)
length-next_var op_concat_n x vars = ap length (append-nil vars)
length-next_var op_capture x vars = omega (arith, length-append vars (x ∷ []))
length-next_var op_end x vars = ap length (append-nil vars)

pub scan_ops-ScansAll :
    (pool : List Text) (index : Text → ℕ) (os : List Op) (s : Scan)
    → All (λ (o : Op). IsOp o.code o.str) os
    → All (IsPooled pool index) os
    → {s' : Scan} → scan_ops pool (encode index os) s ≡ some s'
    → ScansAll index os s s'
unfolding scan_ops
scan_ops-ScansAll pool index [] s ok p {s'} h =
    subst (ScansAll index [] s) (some-injective _ _ h) (record {
      typed_eq = sym (append-nil s.typed_ops);
      vars_eq = sym (append-nil s.vars);
      tail_eq = refl;
    })
scan_ops-ScansAll pool index (o ∷ os) s ok p {s'} h =
    go (scan_op pool (pos (opcode_int o.code)) (pos (operand_of index o)) s) refl
      (λ t. scan_ops-ScansAll pool index os t ok.1 p.1 {s' = s'})
  where
    go :
        (r : Option Scan)
        → scan_op pool (pos (opcode_int o.code)) (pos (operand_of index o)) s ≡ r
        → ((t : Scan) → scan_ops pool (encode index os) t ≡ some s' → ScansAll index os t s')
        → ScansAll index (o ∷ os) s s'
    go none q ih = absurd (ground (arith, rw (q, scan_ops) at h))
    go (some t) q ih = record {
      typed_eq =
          rest.typed_eq
          ∙ ap₂ (λ z k. z ++ rops index k os) first.typed_eq
              (ap length first.vars_eq ∙ length-next_var o.code o.str s.vars)
          ∙ append_assoc s.typed_ops (kept ∷ []) (rops index (next_var o.code (length s.vars)) os);
      vars_eq =
          rest.vars_eq
          ∙ ap (λ z. z ++ names os) first.vars_eq
          ∙ append_assoc s.vars (name_of o.code o.str) (names os);
      tail_eq = rest.tail_eq ∙ ap (tail_steps os) first.tail_eq;
    }
      where
        kept : Rop
        kept = record {
          code = o.code;
          operand = kept_operand o.code (operand_of index o) (length s.vars);
        }

        pooled : teq o.str [] ≡ false → get_elem? pool (operand_of index o) ≡ some o.str
        pooled full = rw full (p.0 full)

        first : Scans o.code (operand_of index o) o.str s t
        first = scan_op-Scans pool o.code (operand_of index o) o.str s ok.0 pooled q

        rest : ScansAll index os t s'
        rest = ih t (rw (q, scan_ops) at h)
