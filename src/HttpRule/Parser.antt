-- ===== src/HttpRule/Parser.antt =====
-- `parser` and `Parse` of parse.go. An error value keeps which of the messages it is, without the
-- texts that are formatted into it. `no_fuel` and `no_token` (the index panic of `p.tokens[0]`) are
-- not errors of the source: a round of a loop takes a token, and the last token is the `eof`.
pub mod Sound
pub mod Total
use realmicro.Common.{
  ℕ, zero, suc, Text, List, [], ◌∷◌, ◌++◌, Bool, true, false, ◌&&◌, ◌||◌, not, teq, codes, join,
  if◌then◌else◌, has_prefix, length,
}
use realmicro.HttpRule.Types.{
  Segment, wildcard, deep_wildcard, literal, variable, Segments, nil, cons, Template,
}
use realmicro.HttpRule.Chars.{expect_pchars, expect_ident}
use realmicro.HttpRule.Tokens.{eof, tokenize}

pub data Error : Type 0 where
  no_leading_slash unexpected_token unterminated_variable invalid_path_component : Error
  expected_term expected_eof bad_ident bad_pchars no_token no_fuel : Error

pub data Result {ℓ} (A : Type ℓ) : Type ℓ where
  ok : A → Result A
  err : Error → Result A

infixl 5 ◌>>=◌
abbrev pub ◌>>=◌ {ℓ κ} : {A : Type ℓ} {B : Type κ} → Result A → (A → Result B) → Result B
ok a >>= f = f a
err e >>= f = err e

-- `termType`; `sym` is one of "/", "*", "**", ".", "=", "{" and "}".
pub data Term : Type 0 where
  symbol : Text → Term
  ident literal_chars end_of_file : Term

pub record Parser : Type 0 where
  pub tokens : List Text
  pub accepted : List Text

-- The switch of `accept` on the term: whether the token is taken. A "/" passes as any symbol.
unfoldable pub takes : Term → Text → Bool
unfolding expect_ident expect_pchars teq
takes (symbol s) t = teq t s || teq t (codes "/")
takes end_of_file t = teq t eof
takes ident t = expect_ident t
takes literal_chars t = expect_pchars t

abbrev pub refusal : Term → Error
refusal (symbol s) = expected_term
refusal end_of_file = expected_eof
refusal ident = bad_ident
refusal literal_chars = bad_pchars

unfoldable pub accept_from : Term → List Text → List Text → Result (Text × Parser)
unfolding takes
accept_from term [] accepted = err no_token
accept_from term (t ∷ ts) accepted =
    if takes term t
    then ok (t, record { tokens = ts; accepted = accepted ++ (t ∷ []) })
    else err (refusal term)

-- A call that returns an error leaves the parser as it was.
unfoldable pub accept : Term → Parser → Result (Text × Parser)
unfolding accept_from
accept term p = accept_from term p.tokens p.accepted

-- The loop of `fieldPath`, on fuel, with the components so far.
unfoldable pub field_path_loop : ℕ → List Text → Parser → Result (Text × Parser)
unfolding accept
field_path_loop zero components p = err no_fuel
field_path_loop (suc fuel) components p = elim (accept (symbol (codes ".")) p) [
  | err e ↦ ok (join components (codes "."), p)
  | ok (dot, p1) ↦ elim (accept ident p1) [
    | err e ↦ err invalid_path_component
    | ok (c, p2) ↦ field_path_loop fuel (components ++ (c ∷ [])) p2
  ]
]

unfoldable pub field_path : ℕ → Parser → Result (Text × Parser)
unfolding accept field_path_loop
field_path fuel p = do (c, p1) ← accept ident p; field_path_loop fuel (c ∷ []) p1

-- The three parts of `variable`, with the recursive call of `segments` as an argument.
module _ (fuel : ℕ) (segments : Parser → Result (Segments × Parser)) where
  -- `if _, err := p.accept("="); err == nil { ... } else { segs = []segment{wildcard{}} }`
  unfoldable pub variable_segments : Parser → Result (Segments × Parser)
  unfolding accept
  variable_segments p = elim (accept (symbol (codes "=")) p) [
    | err e ↦ ok (cons wildcard nil, p)
    | ok (eq, p1) ↦ segments p1
  ]

  unfoldable pub close_variable : Text → Segments → Parser → Result (Segment × Parser)
  unfolding accept
  close_variable path segs p = elim (accept (symbol (codes "}")) p) [
    | err e ↦ err unterminated_variable
    | ok (brace, p1) ↦ ok (variable path segs, p1)
  ]

  unfoldable pub parse_variable : Parser → Result (Segment × Parser)
  unfolding accept field_path variable_segments close_variable
  parse_variable p = do
    (brace, p1) ← accept (symbol (codes "{")) p
    (path, p2) ← field_path fuel p1
    (segs, p3) ← variable_segments p2
    close_variable path segs p3

  -- `segment`: the alternatives in order. The source wraps the last error.
  unfoldable pub parse_segment : Parser → Result (Segment × Parser)
  unfolding accept parse_variable
  parse_segment p = elim (accept (symbol (codes "*")) p) [
    | ok (t, p1) ↦ ok (wildcard, p1)
    | err e ↦ elim (accept (symbol (codes "**")) p) [
      | ok (t, p1) ↦ ok (deep_wildcard, p1)
      | err e1 ↦ elim (accept literal_chars p) [
        | ok (lit, p1) ↦ ok (literal lit, p1)
        | err e2 ↦ parse_variable p
      ]
    ]
  ]

-- What `segments` does after its first segment: the loop goes on after a "/".
unfoldable pub more_segments :
    (Parser → Result (Segments × Parser)) → Segment → Parser → Result (Segments × Parser)
unfolding accept
more_segments segments s p = elim (accept (symbol (codes "/")) p) [
  | err e ↦ ok (cons s nil, p)
  | ok (slash, p1) ↦ do (segs, p2) ← segments p1; ok (cons s segs, p2)
]

-- `segments`: its loop appends a segment after each "/", and so does this recursion on fuel.
unfoldable pub parse_segments : ℕ → Parser → Result (Segments × Parser)
unfolding parse_segment more_segments
parse_segments zero p = err no_fuel
parse_segments (suc fuel) p = do
  (s, p1) ← parse_segment fuel (parse_segments fuel) p
  more_segments (parse_segments fuel) s p1

unfoldable pub expect_end : Segments → Parser → Result Segments
unfolding accept
expect_end segs p = elim (accept end_of_file p) [
  | err e ↦ err unexpected_token
  | ok (t, p1) ↦ ok segs
]

unfoldable pub top_level_segments : ℕ → Parser → Result Segments
unfolding parse_segments expect_end
top_level_segments fuel p = do (segs, p1) ← parse_segments fuel p; expect_end segs p1

-- One more than the number of tokens.
abbrev pub enough : List Text → ℕ
enough ts = suc (length ts)

unfoldable pub parse_path : Text → Text → Result Template
unfolding tokenize top_level_segments
parse_path tmpl path =
    let (tokens, verb) = tokenize path in
    let start : Parser = record { tokens = tokens; accepted = [] } in
    do
      segs ← top_level_segments (enough tokens) start
      ok (record { verb = verb; template = tmpl; segments = segs })

-- `Parse`, which cuts the leading "/" off.
unfoldable pub parse : Text → Result Template
unfolding parse_path
parse [] = err no_leading_slash
parse (c ∷ path) =
    if has_prefix (c ∷ path) (codes "/") then parse_path (c ∷ path) path else err no_leading_slash
