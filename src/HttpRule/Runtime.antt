-- ===== src/HttpRule/Runtime.antt =====
-- runtime.go: `NewPattern` checks a program of opcodes, and `Match` runs it on a path's components.
pub mod Stacked
pub mod Safety
use realmicro.Common.{
  ℕ, zero, suc, ◌+◌, ◌-◌, Text, List, [], ◌∷◌, ◌++◌, Bool, true, false, ◌||◌, ◌==◌, not, teq, ltb,
  leb, if◌then◌else◌, length, get_elem?, set, take, drop, replicate, Map, insert, Option, none,
  some, ℤ, pos, negsuc, codes, join, max,
}
use mathlib.Core.List.{reverse}
use realmicro.HttpRule.Compiler.{
  OpCode, op_nop, op_push, op_lit_push, op_push_m, op_concat_n, op_capture, op_end,
}

-- `rop`. A push has an operand that nothing reads: it is kept as 0.
pub record Rop : Type 0 where
  pub code : OpCode
  pub operand : ℕ

pub record Pattern : Type 0 where
  pub verb : Text
  pub ops : List Rop
  pub pool : List Text
  pub vars : List Text
  pub stacksize : ℕ
  pub tail_len : ℕ
  pub assume_colon_verb : Bool

-- The variables of the loop of `NewPattern`.
pub record Scan : Type 0 where
  pub typed_ops : List Rop
  pub stack : ℕ
  pub maxstack : ℕ
  pub tail_len : ℕ
  pub push_m_seen : Bool
  pub vars : List Text

-- The end of a round that does not fail.
abbrev pub typed : OpCode → ℕ → Scan → Scan
typed c n s = record s {
  typed_ops = s.typed_ops ++ (record { code = c; operand = n } ∷ []);
  maxstack = max s.maxstack s.stack;
}

-- The cases of the switch on `op.code`; `none` is ErrInvalidPattern.
module _ (pool : List Text) where
  unfoldable pub scan_push : OpCode → ℕ → Scan → Option Scan
  scan_push c n s = some (
      typed c n (record s {
        tail_len = if s.push_m_seen then s.tail_len + 1 else s.tail_len;
        stack = s.stack + 1;
      }))

  unfoldable pub scan_push_m : Scan → Option Scan
  scan_push_m s =
      if s.push_m_seen
      then none
      else some (typed op_push_m 0 (record s { push_m_seen = true; stack = s.stack + 1 }))

  unfoldable pub scan_lit : ℤ → Scan → Option Scan
  unfolding scan_push
  scan_lit (negsuc n) s = none
  scan_lit (pos n) s = if leb (length pool) n then none else scan_push op_lit_push n s

  unfoldable pub scan_concat : ℤ → Scan → Option Scan
  scan_concat (negsuc n) s = none
  scan_concat (pos n) s =
      if n == 0
      then none
      else if ltb s.stack n
      then none
      else some (typed op_concat_n n (record s { stack = s.stack - n + 1 }))

  -- `v := pool[op.operand]; op.operand = len(vars); vars = append(vars, v); stack--`
  abbrev pub captured_var : Option Text → Scan → Option Scan
  captured_var none s = none
  captured_var (some v) s =
      if s.stack == 0
      then none
      else some (
          typed op_capture (length s.vars)
            (record s { vars = s.vars ++ (v ∷ []); stack = s.stack - 1 }))

  -- The bounds test on the operand is the `none` of `get_elem?`.
  unfoldable pub scan_capture : ℤ → Scan → Option Scan
  scan_capture (negsuc n) s = none
  scan_capture (pos n) s = captured_var (get_elem? pool n) s

  unfoldable pub scan_op : ℤ → ℤ → Scan → Option Scan
  unfolding scan_push scan_push_m scan_lit scan_concat scan_capture
  scan_op (negsuc c) operand s = none
  scan_op (pos c) operand s =
      if c == 0
      then some s
      else if c == 1
      then scan_push op_push 0 s
      else if c == 2
      then scan_lit operand s
      else if c == 3
      then scan_push_m s
      else if c == 4
      then scan_concat operand s
      else if c == 5
      then scan_capture operand s
      else none

  -- `for i := 0; i < l; i += 2`
  unfoldable pub scan_ops : List ℤ → Scan → Option Scan
  unfolding scan_op
  scan_ops [] s = some s
  scan_ops (c ∷ []) s = none
  scan_ops (c ∷ (n ∷ ops)) s = elim (scan_op c n s) [ none ↦ none | some s' ↦ scan_ops ops s' ]

abbrev pub no_scan : Scan
no_scan = record {
  typed_ops = [];
  stack = 0;
  maxstack = 0;
  tail_len = 0;
  push_m_seen = false;
  vars = [];
}

-- `NewPattern`, with the option `AssumeColonVerbOpt`. An odd number of codes is refused up front in
-- the source, and here by the loop, with the same result.
unfoldable pub new_pattern : ℕ → List ℤ → List Text → Text → Bool → Option Pattern
unfolding scan_ops
new_pattern version ops pool verb assume_colon_verb =
    if version == 1
    then elim (scan_ops pool ops no_scan) [
      | none ↦ none
      | some s ↦ some (record {
        verb = verb;
        ops = s.typed_ops;
        pool = pool;
        vars = s.vars;
        stacksize = s.maxstack;
        tail_len = s.tail_len;
        assume_colon_verb = assume_colon_verb;
      })
    ]
    else none

-- `Match` returns a value, returns ErrNotMatch, or panics on an index or a slice out of range.
pub data Outcome {ℓ} (A : Type ℓ) : Type ℓ where
  matched : A → Outcome A
  not_match : Outcome A
  panic : Outcome A

-- The variables of the loop of `Match`. The last element of the source's `stack` stands first, and
-- `rest` is components[pos:].
pub record Run : Type 0 where
  pub rest : List Text
  pub stack : List Text
  pub captured : List Text

module _ (p : Pattern) where
  abbrev pub run_push : List Text → Run → Outcome Run
  run_push [] r = not_match
  run_push (c ∷ rest) r = matched (record r { rest = rest; stack = c ∷ r.stack })

  abbrev pub run_lit : Option Text → List Text → Run → Outcome Run
  run_lit lit [] r = not_match
  run_lit none (c ∷ rest) r = panic
  run_lit (some lit) (c ∷ rest) r =
      if teq c lit then matched (record r { rest = rest; stack = c ∷ r.stack }) else not_match

  -- `end := len(components) - p.tailLen`, if the tail fits
  abbrev pub run_push_m : Run → Outcome Run
  run_push_m r =
      if ltb (length r.rest) p.tail_len
      then not_match
      else let n = length r.rest - p.tail_len in
        matched
          (record r { rest = drop n r.rest; stack = join (take n r.rest) (codes "/") ∷ r.stack })

  abbrev pub run_concat : ℕ → Run → Outcome Run
  run_concat n r =
      if ltb (length r.stack) n
      then panic
      else matched
          (record r { stack = join (reverse (take n r.stack)) (codes "/") ∷ drop n r.stack })

  abbrev pub run_capture : ℕ → List Text → Run → Outcome Run
  run_capture i [] r = panic
  run_capture i (top ∷ stack) r =
      if ltb i (length r.captured)
      then matched (record r { stack = stack; captured = set r.captured i top })
      else panic

  abbrev pub run_op : OpCode → ℕ → Run → Outcome Run
  run_op op_nop n r = matched r
  run_op op_push n r = run_push r.rest r
  run_op op_lit_push n r = run_lit (get_elem? p.pool n) r.rest r
  run_op op_push_m n r = run_push_m r
  run_op op_concat_n n r = run_concat n r
  run_op op_capture n r = run_capture n r.stack r
  run_op op_end n r = matched r

  unfoldable pub run_ops : List Rop → Run → Outcome Run
  run_ops [] r = matched r
  run_ops (o ∷ ops) r = elim (run_op o.code o.operand r) [
    | matched r' ↦ run_ops ops r'
    | not_match ↦ not_match
    | panic ↦ panic
  ]

-- `for i, val := range captured { bindings[p.vars[i]] = val }`
unfoldable pub bind_vars : List Text → List Text → Map Text → Map Text
unfolding insert
bind_vars vars [] m = m
bind_vars [] (val ∷ vals) m = m
bind_vars (v ∷ vars) (val ∷ vals) m = bind_vars vars vals (insert v val m)

abbrev pub start_run : Pattern → List Text → Run
start_run p components = record {
  rest = components;
  stack = [];
  captured = replicate (length p.vars) [];
}

-- `if pos < l { return nil, ErrNotMatch }`
abbrev pub finish : Pattern → Outcome Run → Outcome (Map Text)
finish p not_match = not_match
finish p panic = panic
finish p (matched r) = elim r.rest [
  | [] ↦ matched (bind_vars p.vars r.captured [])
  | c ∷ cs ↦ not_match
]

unfoldable pub match_components : Pattern → List Text → Outcome (Map Text)
unfolding run_ops bind_vars
match_components p components = finish p (run_ops p p.ops (start_run p components))

-- `components[len(components)-1] += ":" + verb`, or one component where there is none
unfoldable pub add_verb : List Text → Text → List Text
add_verb [] verb = (codes ":" ++ verb) ∷ []
add_verb (c ∷ []) verb = (c ++ (codes ":" ++ verb)) ∷ []
add_verb (c ∷ (d ∷ cs)) verb = c ∷ add_verb (d ∷ cs) verb

-- `Match`
unfoldable pub match : Pattern → List Text → Text → Outcome (Map Text)
unfolding match_components add_verb teq
match p components verb =
    if teq p.verb verb
    then match_components p components
    else if p.assume_colon_verb || not (teq p.verb [])
    then not_match
    else match_components p (add_verb components verb)
