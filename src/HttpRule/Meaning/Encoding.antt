-- ===== src/HttpRule/Meaning/Encoding.antt =====
-- The opcodes that `Compile` emits (compile.go), as a function of the operations and of the place of
-- each text in the finished pool.
use mathlib.Core.Option.{some-injective}
use realmicro.Common.{
  ℕ, Text, List, [], ◌∷◌, ◌++◌, true, false, Option, none, some, teq, teq_iff, teq_refl, length,
  get_elem?, get_elem?-append_left, get_elem?-append_length, Map, lookup, insert, lookup-insert,
  if◌then◌else◌, All, ℤ, pos, arith, ◌≡◌, refl, sym, ap, ◌∙◌, Bool-cases, inl, inr, append_assoc,
  append-nil, subst, ◌⊎◌,
}
use realmicro.HttpRule.Compiler.{
  opcode_int, Op, Emit, intern, const_index, emit, emit_all, nothing_emitted,
}

-- An operand: the place of the text, or the operand where there is no text.
abbrev pub operand_of : (Text → ℕ) → Op → ℕ
operand_of index o = if teq o.str [] then o.operand else index o.str

abbrev pub encode : (Text → ℕ) → List Op → List ℤ
encode index [] = []
encode index (o ∷ os) = pos (opcode_int o.code) ∷ (pos (operand_of index o) ∷ encode index os)

-- The text of an operation stands at its place in the pool.
abbrev pub IsPooled : List Text → (Text → ℕ) → Op → Type 0
IsPooled pool index o = teq o.str [] ≡ false → get_elem? pool (index o.str) ≡ some o.str

-- `consts[s]` at the end.
abbrev pub place : Map ℕ → Text → ℕ
place consts s = const_index (lookup s consts)

-- Each constant is in the pool at its index.
abbrev Consistent : Emit → Type 0
Consistent e = (s : Text) (i : ℕ) → lookup s e.consts ≡ some i → get_elem? e.pool i ≡ some s

-- What stays when more is emitted.
record Grows (e f : Emit) : Type 0 where
  pool_grows : (i : ℕ) (s : Text) → get_elem? e.pool i ≡ some s → get_elem? f.pool i ≡ some s
  consts_grow : (s : Text) (i : ℕ) → lookup s e.consts ≡ some i → lookup s f.consts ≡ some i

Grows-refl : (e : Emit) → Grows e e
Grows-refl e = record { pool_grows = λ i s h. h; consts_grow = λ s i h. h }

Grows-trans : {e f g : Emit} → Grows e f → Grows f g → Grows e g
Grows-trans h k = record {
  pool_grows = λ i s q. k.pool_grows i s (h.pool_grows i s q);
  consts_grow = λ s i q. k.consts_grow s i (h.consts_grow s i q);
}

record Interned (s : Text) (e f : Emit) : Type 0 where
  grows : Grows e f
  consistent : Consistent f
  there : (i : ℕ) × (lookup s f.consts ≡ some i)
  same_ops : f.ops ≡ e.ops

intern-Interned : (s : Text) (e : Emit) → Consistent e → Interned s e (intern s e)
unfolding intern
intern-Interned s e c = go (lookup s e.consts) refl
  where
    grown : Emit
    grown = record e { pool = e.pool ++ (s ∷ []); consts = insert s (length e.pool) e.consts }

    go : (o : Option ℕ) → lookup s e.consts ≡ o → Interned s e (intern s e)
    go (some i) q =
        rw (q, intern)
          (record { grows = Grows-refl e; consistent = c; there = (i, q); same_ops = refl })
    go none q =
        rw (q, intern)
          (record {
            grows = record {
              pool_grows = λ i t h. get_elem?-append_left e.pool (s ∷ []) i t h;
              consts_grow = λ t i h. new_or_old t i h (Bool-cases (teq s t));
            };
            consistent = λ t i h. placed t i h (Bool-cases (teq s t));
            there =
                (length e.pool, lookup-insert s s (length e.pool) e.consts ∙ rw (teq_refl s) refl);
            same_ops = refl;
          })
      where
        new_or_old :
            (t : Text) (i : ℕ)
            → lookup t e.consts ≡ some i
            → (teq s t ≡ true) ⊎ (teq s t ≡ false)
            → lookup t grown.consts ≡ some i
        new_or_old t i h (inl same) =
            absurd (ground (arith, q, h, ap (λ k. lookup k e.consts) ((teq_iff s t).0 same)))
        new_or_old t i h (inr other) = lookup-insert s t (length e.pool) e.consts ∙ rw other h

        placed :
            (t : Text) (i : ℕ)
            → lookup t grown.consts ≡ some i
            → (teq s t ≡ true) ⊎ (teq s t ≡ false)
            → get_elem? grown.pool i ≡ some t
        placed t i h (inr other) =
            get_elem?-append_left e.pool (s ∷ []) i t
              (c t i (rw other at (sym (lookup-insert s t (length e.pool) e.consts) ∙ h)))
        placed t i h (inl same) =
            subst (λ k. get_elem? grown.pool k ≡ some t)
              (some-injective _ _
                (rw same at (sym (lookup-insert s t (length e.pool) e.consts) ∙ h)))
              (get_elem?-append_length e.pool [] s ∙ ap some ((teq_iff s t).0 same))

-- One operation: the codes that it adds, and that they are right for every pool that grows from here.
record Emitted (os : List Op) (e f : Emit) : Type 0 where
  grows : Grows e f
  consistent : Consistent f
  ops_eq :
      (g : Emit)
      → Grows f g
      → Consistent g
      → (f.ops ≡ e.ops ++ encode (place g.consts) os) × All (IsPooled g.pool (place g.consts)) os

emit-Emitted : (o : Op) (e : Emit) → Consistent e → Emitted (o ∷ []) e (emit o e)
unfolding emit
emit-Emitted o e c = elim (Bool-cases (teq o.str [])) [
  | inl empty ↦ rw empty (record {
    grows = record { pool_grows = λ i s h. h; consts_grow = λ s i h. h };
    consistent = c;
    ops_eq = λ g k d. (rw empty refl, (λ full. absurd (ground (arith, empty, full)), tt));
  })
  | inr full ↦ rw full (record {
    grows = record {
      pool_grows = interned.grows.pool_grows;
      consts_grow = interned.grows.consts_grow;
    };
    consistent = interned.consistent;
    ops_eq = λ g k d.
        let there : lookup o.str g.consts ≡ some interned.there.0 =
          k.consts_grow o.str interned.there.0 interned.there.1 in
        (
          rw (full, there, interned.there.1) refl,
          (λ _. rw there (d o.str interned.there.0 there), tt),
        );
  })
]
  where
    interned : Interned o.str e (intern o.str e)
    interned = intern-Interned o.str e c

pub encode-append :
    (index : Text → ℕ) (xs ys : List Op)
    → encode index (xs ++ ys) ≡ encode index xs ++ encode index ys
encode-append index [] ys = refl
encode-append index (x ∷ xs) ys =
    ap (λ z. pos (opcode_int x.code) ∷ (pos (operand_of index x) ∷ z)) (encode-append index xs ys)

emit_all-Emitted : (os : List Op) (e : Emit) → Consistent e → Emitted os e (emit_all os e)
unfolding emit_all
emit_all-Emitted [] e c = record {
  grows = Grows-refl e;
  consistent = c;
  ops_eq = λ g k d. (sym (append-nil e.ops), tt);
}
emit_all-Emitted (o ∷ os) e c =
    let first : Emitted (o ∷ []) e (emit o e) = emit-Emitted o e c in
    let rest : Emitted os (emit o e) (emit_all os (emit o e)) =
      emit_all-Emitted os (emit o e) first.consistent in
    record {
      grows = Grows-trans first.grows rest.grows;
      consistent = rest.consistent;
      ops_eq = λ g k d.
          let (first_ops, first_pooled) = first.ops_eq g (Grows-trans rest.grows k) d in
          let (rest_ops, rest_pooled) = rest.ops_eq g k d in
          (
            rest_ops
                ∙ ap (λ z. z ++ encode (place g.consts) os) first_ops
                ∙ append_assoc e.ops (encode (place g.consts) (o ∷ []))
                    (encode (place g.consts) os),
            (first_pooled.0, rest_pooled),
          );
    }

-- What `Compile` emits is the encoding, and each text is in the pool at its place.
pub emit_all-encode :
    (os : List Op)
    → let e = emit_all os nothing_emitted in
      (e.ops ≡ encode (place e.consts) os) × All (IsPooled e.pool (place e.consts)) os
emit_all-encode os =
    all.ops_eq (emit_all os nothing_emitted) (Grows-refl (emit_all os nothing_emitted))
      all.consistent
  where
    nothing : (s : Text) (i : ℕ) → lookup {V = ℕ} s [] ≡ some i → ⊥
    nothing s i h = unfold lookup in ground (arith, h)

    all : Emitted os nothing_emitted (emit_all os nothing_emitted)
    all = emit_all-Emitted os nothing_emitted (λ s i h. absurd (nothing s i h))
