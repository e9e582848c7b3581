-- ===== src/HttpRule/Compiler.antt =====
-- compile.go: segments to operations, and operations to opcodes over a pool of constants.
use realmicro.Common.{
  ℕ, Text, List, [], ◌∷◌, ◌++◌, teq, if◌then◌else◌, length, Map, lookup, insert, Option, none, some,
  ℤ, pos,
}
use realmicro.HttpRule.Types.{
  Segment, wildcard, deep_wildcard, literal, variable, Segments, nil, cons, Template, count,
}

-- The constants of pattern.go, in their order.
pub data OpCode : Type 0 where
  op_nop op_push op_lit_push op_push_m op_concat_n op_capture op_end : OpCode

abbrev pub opcode_int : OpCode → ℕ
opcode_int op_nop = 0
opcode_int op_push = 1
opcode_int op_lit_push = 2
opcode_int op_push_m = 3
opcode_int op_concat_n = 4
opcode_int op_capture = 5
opcode_int op_end = 6

-- `op`
pub record Op : Type 0 where
  pub str : Text
  pub code : OpCode
  pub operand : ℕ

abbrev pub op_of : OpCode → Text → ℕ → Op
op_of c s n = record { str = s; code = c; operand = n }

-- The methods `compile`, and the loop over the segments that two of their callers have.
unfoldable mutual
  pub compile_segment : Segment → List Op
  compile_segment wildcard = op_of op_push [] 0 ∷ []
  compile_segment deep_wildcard = op_of op_push_m [] 0 ∷ []
  compile_segment (literal l) = op_of op_lit_push l 0 ∷ []
  compile_segment (variable path segs) =
      compile_segments segs ++ (op_of op_concat_n [] (count segs) ∷ (op_of op_capture path 0 ∷ []))

  pub compile_segments : Segments → List Op
  compile_segments nil = []
  compile_segments (cons s r) = compile_segment s ++ compile_segments r

-- `Template`, the compiled one.
pub record Compiled : Type 0 where
  pub version : ℕ
  pub op_codes : List ℤ
  pub pool : List Text
  pub verb : Text
  pub fields : List Text
  pub template : Text

-- The variables of the loop of `Compile`.
pub record Emit : Type 0 where
  pub ops : List ℤ
  pub pool : List Text
  pub fields : List Text
  pub consts : Map ℕ

-- `if _, ok := consts[op.str]; !ok { ... }`
unfoldable pub intern : Text → Emit → Emit
unfolding lookup insert
intern s e = elim (lookup s e.consts) [
  | some i ↦ e
  | none ↦ record e { pool = e.pool ++ (s ∷ []); consts = insert s (length e.pool) e.consts }
]

-- `consts[op.str]`, zero if it is missing.
abbrev pub const_index : Option ℕ → ℕ
const_index none = 0
const_index (some i) = i

abbrev pub emitted_fields : OpCode → Text → List Text → List Text
emitted_fields op_capture s fields = fields ++ (s ∷ [])
emitted_fields _ s fields = fields

-- One round of the loop.
unfoldable pub emit : Op → Emit → Emit
unfolding intern lookup teq
emit o e =
    let e1 = intern o.str e in
    if teq o.str []
    then record e {
      ops = e.ops ++ (pos (opcode_int o.code) ∷ (pos o.operand ∷ []));
      fields = emitted_fields o.code o.str e.fields;
    }
    else record e1 {
      ops = e.ops ++ (pos (opcode_int o.code) ∷ (pos (const_index (lookup o.str e1.consts)) ∷ []));
      fields = emitted_fields o.code o.str e.fields;
    }

unfoldable pub emit_all : List Op → Emit → Emit
unfolding emit
emit_all [] e = e
emit_all (o ∷ os) e = emit_all os (emit o e)

abbrev pub nothing_emitted : Emit
nothing_emitted = record { ops = []; pool = []; fields = []; consts = [] }

unfoldable pub compile : Template → Compiled
unfolding compile_segments emit_all
compile t =
    let e = emit_all (compile_segments t.segments) nothing_emitted in
    record {
      version = 1;
      op_codes = e.ops;
      pool = e.pool;
      verb = t.verb;
      fields = e.fields;
      template = t.template;
    }
