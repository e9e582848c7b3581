-- ===== src/HttpRule/Tokens.antt =====
-- `tokenize` of parse.go.
pub mod Lossless
use realmicro.Common.{
  ℕ, zero, suc, ◌+◌, Text, List, [], ◌∷◌, ◌++◌, Bool, true, false, Option, none, some, ◌==◌, teq,
  if◌then◌else◌, codes, any_of, take, drop, length, get_elem?,
}

-- The constant `eof`: one NUL.
abbrev pub eof : Text
eof = 0 ∷ []

-- The constants init, field and nested.
pub data Mode : Type 0 where
  init field nested : Mode

abbrev pub stops : Mode → Text
stops init = codes "/{"
stops field = codes ".=}"
stops nested = codes "/}"

-- strings.IndexAny for a set of ASCII bytes: the text before the first of them, that byte, and the
-- text after it; `none` for -1.
unfoldable pub split_any : Text → Text → Option (Text × ℕ × Text)
split_any set [] = none
split_any set (c ∷ t) =
    let rest = split_any set t in
    if any_of (λ x. x == c) set
    then some ([], c, t)
    else elim rest [ none ↦ none | some (before, d, after) ↦ some (c ∷ before, d, after) ]

-- The switch on `path[idx]`.
unfoldable pub next_mode : Mode → ℕ → Mode
next_mode st r =
    if r == b'{' then field else if r == b'=' then nested else if r == b'}' then init else st

-- The two appends: an empty text before the stop is no token.
unfoldable pub push_token : Text → ℕ → List Text → List Text
push_token [] r tokens = (r ∷ []) ∷ tokens
push_token (c ∷ t) r tokens = (c ∷ t) ∷ ((r ∷ []) ∷ tokens)

-- `for path != ""`. A round that goes on takes at least one byte from the path, so the length of
-- the path is fuel enough.
unfoldable pub tokens_loop : ℕ → Mode → Text → List Text
unfolding split_any next_mode push_token
tokens_loop fuel st [] = []
tokens_loop zero st (c ∷ t) = []
tokens_loop (suc fuel) st (c ∷ t) = elim (split_any (stops st) (c ∷ t)) [
  | none ↦ (c ∷ t) ∷ []
  | some (before, r, path) ↦ push_token before r (tokens_loop fuel (next_mode st r) path)
]

-- strings.LastIndex(t, ":"), as the texts before and after it.
unfoldable pub split_last_colon : Text → Option (Text × Text)
split_last_colon [] = none
split_last_colon (c ∷ t) = elim (split_last_colon t) [
  | some (before, after) ↦ some (c ∷ before, after)
  | none ↦ if c == b':' then some ([], t) else none
]

-- The last token gives up its verb: the tokens that are left, and the verb.
unfoldable pub take_verb : List Text → List Text × Text
unfolding split_last_colon
take_verb [] = ([], [])
take_verb (t ∷ []) = elim (split_last_colon t) [
  | none ↦ (t ∷ [], [])
  | some (before, verb) ↦ if teq before [] then ([], verb) else (before ∷ [], verb)
]
take_verb (t ∷ (u ∷ r)) = let (tokens, verb) = take_verb (u ∷ r) in (t ∷ tokens, verb)

unfoldable pub tokenize : Text → List Text × Text
unfolding tokens_loop take_verb
tokenize [] = (eof ∷ [], [])
tokenize (c ∷ t) =
    let (tokens, verb) = take_verb (tokens_loop (length (c ∷ t)) init (c ∷ t)) in
    (tokens ++ (eof ∷ []), verb)
