-- ===== src/HttpRule/Parser/Total.antt =====
-- `Parse` (parse.go) is total: on every text it returns a template or one of its errors; it never
-- reads past the tokens, and the fuel of the model is enough.
use realmicro.Common.{
  ℕ, zero, suc, ◌≤◌, ◌<◌, ◌≢◌, refl, Text, List, [], ◌∷◌, ◌++◌, length, arith, Bool-cases, inl, inr,
  codes, has_prefix,
}
use realmicro.HttpRule.Types.{Segment, Segments}
use realmicro.HttpRule.Tokens.{eof, init, tokens_loop, take_verb, tokenize}
use realmicro.HttpRule.Parser.{
  no_token, no_fuel, Result, ok, err, symbol, ident, literal_chars, end_of_file, Parser, takes,
  accept_from, accept, field_path_loop, field_path, variable_segments, close_variable,
  parse_variable, parse_segment, more_segments, parse_segments, expect_end, top_level_segments,
  enough, parse_path, parse,
}
use realmicro.HttpRule.Parser.Sound.{
  EndsEof, Sound, Left, LeftOf, Sound->>=, accept-cases, accept-Sound, Left-mono, slash-refuses,
  dot-refuses, equals-refuses, star-refuses, stars-refuses, open-refuses, close-refuses,
  ident-refuses, literal-refuses,
}

EndsEof-pos : (ts : List Text) → EndsEof ts → 1 ≤ length ts
EndsEof-pos [] e = absurd e
EndsEof-pos (t ∷ ts) e = omega arith

-- The loop of `fieldPath` may take no token.
field_path_loop-Sound :
    (fuel : ℕ) (cs : List Text) (p : Parser)
    → EndsEof p.tokens
    → length p.tokens < fuel
    → Sound (LeftOf (suc (length p.tokens))) (field_path_loop fuel cs p)
unfolding field_path_loop
field_path_loop-Sound zero cs p e l = absurd (omega arith)
field_path_loop-Sound (suc fuel) cs p e l =
    elim (accept-cases (symbol (codes ".")) p dot-refuses e) [
      | inr q ↦ rw (q, field_path_loop) (e, omega arith)
      | inl ((dot, p1), q, l1) ↦ elim (accept-cases ident p1 ident-refuses l1.0) [
        | inr q1 ↦ rw (q, field_path_loop) (rw q1 tt)
        | inl ((c, p2), q1, l2) ↦
            rw (q, field_path_loop)
              (rw q1 (
                Left-mono (suc (length p2.tokens)) (suc (length p.tokens))
                  (field_path_loop fuel (cs ++ (c ∷ [])) p2) (omega (arith, l2.1, l1.1))
                  (field_path_loop-Sound fuel (cs ++ (c ∷ [])) p2 l2.0
                    (omega (arith, l2.1, l1.1)))))
      ]
    ]

field_path-Sound :
    (fuel : ℕ) (p : Parser)
    → EndsEof p.tokens
    → length p.tokens ≤ fuel
    → Sound (LeftOf (length p.tokens)) (field_path fuel p)
unfolding field_path
field_path-Sound fuel p e l =
    Sound->>= (LeftOf (length p.tokens)) (LeftOf (length p.tokens)) (accept ident p)
      (λ (c, p1). field_path_loop fuel (c ∷ []) p1) (accept-Sound ident p ident-refuses e)
      (λ (c, p1) left.
        Left-mono (suc (length p1.tokens)) (length p.tokens) (field_path_loop fuel (c ∷ []) p1)
          (omega (arith, left.1))
          (field_path_loop-Sound fuel (c ∷ []) p1 left.0 (omega (arith, left.1))))

-- The parts of a segment, where a recursive call of `segments` is sound on fewer tokens.
module _ (fuel : ℕ) (segments : Parser → Result (Segments × Parser))
    (sound : (p : Parser)
      → EndsEof p.tokens
      → length p.tokens < fuel
      → Sound (LeftOf (length p.tokens)) (segments p)) where
  variable_segments-Sound :
      (p : Parser)
      → EndsEof p.tokens
      → length p.tokens < fuel
      → Sound (LeftOf (suc (length p.tokens))) (variable_segments fuel segments p)
  unfolding variable_segments
  variable_segments-Sound p e l = elim (accept-cases (symbol (codes "=")) p equals-refuses e) [
    | inr q ↦ rw (q, variable_segments) (e, omega arith)
    | inl ((eq, p1), q, l1) ↦
        rw (q, variable_segments)
          (Left-mono (length p1.tokens) (suc (length p.tokens)) (segments p1) (omega (arith, l1.1))
            (sound p1 l1.0 (omega (arith, l1.1))))
  ]

  close_variable-Sound :
      (path : Text) (segs : Segments) (p : Parser)
      → EndsEof p.tokens
      → Sound (LeftOf (length p.tokens)) (close_variable fuel segments path segs p)
  unfolding close_variable
  close_variable-Sound path segs p e = elim (accept-cases (symbol (codes "}")) p close-refuses e) [
    | inr q ↦ rw (q, close_variable) tt
    | inl ((brace, p1), q, l1) ↦ rw (q, close_variable) l1
  ]

  parse_variable-Sound :
      (p : Parser)
      → EndsEof p.tokens
      → length p.tokens ≤ fuel
      → Sound (LeftOf (length p.tokens)) (parse_variable fuel segments p)
  unfolding parse_variable
  parse_variable-Sound p e l =
      let n : ℕ = length p.tokens in
      Sound->>= (LeftOf n) (LeftOf n) (accept (symbol (codes "{")) p) _
        (accept-Sound (symbol (codes "{")) p open-refuses e)
        λ (brace, p1) l1.
          Sound->>= (LeftOf (length p1.tokens)) (LeftOf n) (field_path fuel p1) _
            (field_path-Sound fuel p1 l1.0 (omega (arith, l1.1)))
            λ (path, p2) l2.
              Sound->>= (LeftOf (suc (length p2.tokens))) (LeftOf n)
                (variable_segments fuel segments p2) _
                (variable_segments-Sound p2 l2.0 (omega (arith, l1.1, l2.1)))
                λ (segs, p3) l3.
                  Left-mono (length p3.tokens) n (close_variable fuel segments path segs p3)
                    (omega (arith, l1.1, l2.1, l3.1)) (close_variable-Sound path segs p3 l3.0)

  parse_segment-Sound :
      (p : Parser)
      → EndsEof p.tokens
      → length p.tokens ≤ fuel
      → Sound (LeftOf (length p.tokens)) (parse_segment fuel segments p)
  unfolding parse_segment
  parse_segment-Sound p e l = elim (accept-cases (symbol (codes "*")) p star-refuses e) [
    | inl ((t, p1), q, l1) ↦ rw (q, parse_segment) l1
    | inr q ↦
        rw (q, parse_segment)
          (elim (accept-cases (symbol (codes "**")) p stars-refuses e) [
            | inl ((t, p1), q1, l1) ↦ rw q1 l1
            | inr q1 ↦ rw q1 (elim (accept-cases literal_chars p literal-refuses e) [
              | inl ((t, p1), q2, l1) ↦ rw q2 l1
              | inr q2 ↦ rw q2 (parse_variable-Sound p e l)
            ])
          ])
  ]

-- `rest` is the recursive call.
more_segments-Sound :
    (n : ℕ) (segments : Parser → Result (Segments × Parser)) (s : Segment) (p : Parser)
    → Left n p
    → ((p1 : Parser) → Left (length p.tokens) p1 → Sound (LeftOf (length p1.tokens)) (segments p1))
    → Sound (LeftOf n) (more_segments segments s p)
unfolding more_segments
more_segments-Sound n segments s p l rest =
    elim (accept-cases (symbol (codes "/")) p slash-refuses l.0) [
      | inr q ↦ rw (q, more_segments) l
      | inl ((slash, p1), q, l1) ↦
          rw (q, more_segments)
            (Sound->>= (LeftOf (length p1.tokens)) (LeftOf n) (segments p1) _ (rest p1 l1)
              (λ (segs, p2) l2. (l2.0, omega (arith, l1.1, l2.1))))
    ]

parse_segments-Sound :
    (fuel : ℕ) (p : Parser)
    → EndsEof p.tokens
    → length p.tokens < fuel
    → Sound (LeftOf (length p.tokens)) (parse_segments fuel p)
unfolding parse_segments
parse_segments-Sound zero p e l = absurd (omega arith)
parse_segments-Sound (suc fuel) p e l =
    Sound->>= (LeftOf (length p.tokens)) (LeftOf (length p.tokens))
      (parse_segment fuel (parse_segments fuel) p) _
      (parse_segment-Sound fuel (parse_segments fuel) (parse_segments-Sound fuel) p e (omega arith))
      λ (s, p1) l1.
        more_segments-Sound (length p.tokens) (parse_segments fuel) s p1 l1
          (λ p2 l2. parse_segments-Sound fuel p2 l2.0 (omega (arith, l1.1, l2.1)))

-- `accept` for `end_of_file` may take the last token, and is the last call.
end_of_file-Sound :
    (segs : Segments) (p : Parser) → EndsEof p.tokens → Sound (λ _. Unit) (expect_end segs p)
unfolding expect_end accept
end_of_file-Sound segs p e = go p.tokens p.accepted e
  where
    go :
        (ts done : List Text)
        → EndsEof ts
        → Sound (λ _. Unit) (expect_end segs (record { tokens = ts; accepted = done }))
    go [] done h = absurd h
    go (t ∷ ts) done h = elim (Bool-cases (takes end_of_file t)) [
      | inl taken ↦ rw (taken, expect_end, accept, accept_from) tt
      | inr refused ↦ rw (refused, expect_end, accept, accept_from) tt
    ]

top_level_segments-Sound :
    (fuel : ℕ) (p : Parser)
    → EndsEof p.tokens
    → length p.tokens < fuel
    → Sound (λ _. Unit) (top_level_segments fuel p)
unfolding top_level_segments
top_level_segments-Sound fuel p e l =
    Sound->>= (LeftOf (length p.tokens)) (λ _. Unit) (parse_segments fuel p) _
      (parse_segments-Sound fuel p e l) (λ (segs, p1) l1. end_of_file-Sound segs p1 l1.0)

EndsEof-append : (ts : List Text) → EndsEof (ts ++ (eof ∷ []))
EndsEof-append [] = refl
EndsEof-append (t ∷ []) = refl
EndsEof-append (t ∷ (u ∷ ts)) = EndsEof-append (u ∷ ts)

tokenize-EndsEof : (path : Text) → EndsEof (tokenize path).0
unfolding tokenize
tokenize-EndsEof [] = refl
tokenize-EndsEof (c ∷ t) = EndsEof-append (take_verb (tokens_loop (length (c ∷ t)) init (c ∷ t))).0

parse_path-Sound : (tmpl path : Text) → Sound (λ _. Unit) (parse_path tmpl path)
unfolding parse_path
parse_path-Sound tmpl path =
    Sound->>= (λ _. Unit) (λ _. Unit)
      (top_level_segments (enough ts) (record { tokens = ts; accepted = [] })) _
      (top_level_segments-Sound (enough ts) (record { tokens = ts; accepted = [] })
        (tokenize-EndsEof path) (omega arith))
      (λ segs _. tt)
  where
    ts : List Text
    ts = (tokenize path).0

Sound-no_fault {ℓ} :
    {A : Type ℓ} (m : Result A) → Sound (λ _. Unit) m → (m ≢ err no_token) × (m ≢ err no_fuel)
Sound-no_fault (ok a) h = (λ e. ground arith, λ e. ground arith)
Sound-no_fault (err no_token) h = absurd h
Sound-no_fault (err no_fuel) h = absurd h
Sound-no_fault (err _) h = (λ e. ground arith, λ e. ground arith)

parse-Sound : (tmpl : Text) → Sound (λ _. Unit) (parse tmpl)
unfolding parse
parse-Sound [] = tt
parse-Sound (c ∷ path) = elim (Bool-cases (has_prefix (c ∷ path) (codes "/"))) [
  | inl slash ↦ rw slash (parse_path-Sound (c ∷ path) path)
  | inr other ↦ rw other tt
]

-- For every text, `Parse` does not index an empty token list, and the fuel of the model does not
-- run out: the result is a template or one of the errors of the source.
pub parse_total : (tmpl : Text) → (parse tmpl ≢ err no_token) × (parse tmpl ≢ err no_fuel)
parse_total tmpl = Sound-no_fault (parse tmpl) (parse-Sound tmpl)
