-- ===== src/HttpRule/Meaning.antt =====
-- What the segments of a path template (api/router/util) say of the components of a path, with no
-- opcodes: the description that the compiler and the matcher together implement.
pub mod Encoding
pub mod Scanning
pub mod Counting
pub mod Plain
pub mod Runnable
pub mod Running
pub mod Matching
pub mod Accepting
use realmicro.Common.{
  ℕ, zero, ◌+◌, ◌-◌, Text, List, [], ◌∷◌, ◌++◌, Bool, true, false, ◌||◌, Option, none, some, teq,
  ltb, join, codes, length, take, drop, if◌then◌else◌,
}
use realmicro.HttpRule.Types.{Segments, nil, cons, wildcard, deep_wildcard, literal, variable}
use realmicro.HttpRule.Runtime.{Outcome, matched, not_match, bind_vars}
use realmicro.Common.{Map}

-- The texts of the segments that are not variables, the texts of the variables in the order of their
-- closing braces, and the components behind.
abbrev pub Reading : Type 0
Reading = List Text × List Text × List Text

abbrev pub prepend : Text → List Text → Option Reading → Option Reading
prepend t caps none = none
prepend t caps (some (ts, more, rest)) = some (t ∷ ts, caps ++ more, rest)

abbrev pub capture : List Text → Option Reading → Option Reading
capture caps none = none
capture caps (some (ts, more, rest)) = some (ts, caps ++ more, rest)

-- A deep wildcard takes all components but the last `tail`.
unfoldable pub read_segments : ℕ → Segments → List Text → Option Reading
read_segments tail nil cs = some ([], [], cs)
read_segments tail (cons wildcard r) [] = none
read_segments tail (cons wildcard r) (c ∷ cs) = prepend c [] (read_segments tail r cs)
read_segments tail (cons (literal l) r) [] = none
read_segments tail (cons (literal l) r) (c ∷ cs) =
    let rest = read_segments tail r cs in if teq c l then prepend c [] rest else none
read_segments tail (cons deep_wildcard r) cs =
    let rest = read_segments tail r (drop (length cs - tail) cs) in
    if ltb (length cs) tail
    then none
    else prepend (join (take (length cs - tail) cs) (codes "/")) [] rest
read_segments tail (cons (variable path segs) r) cs = elim (read_segments tail segs cs) [
  | none ↦ none
  | some (ts, caps, rest) ↦ capture (caps ++ (join ts (codes "/") ∷ [])) (read_segments tail r rest)
]

-- The paths of the variables, in the order of their closing braces.
unfoldable pub paths : Segments → List Text
paths nil = []
paths (cons wildcard r) = paths r
paths (cons deep_wildcard r) = paths r
paths (cons (literal l) r) = paths r
paths (cons (variable path segs) r) = paths segs ++ (path ∷ paths r)

-- How many segments read one component each, with those inside of variables.
unfoldable pub singles : Segments → ℕ
singles nil = 0
singles (cons wildcard r) = 1 + singles r
singles (cons deep_wildcard r) = singles r
singles (cons (literal l) r) = 1 + singles r
singles (cons (variable path segs) r) = singles segs + singles r

unfoldable pub has_deep : Segments → Bool
has_deep nil = false
has_deep (cons wildcard r) = has_deep r
has_deep (cons deep_wildcard r) = true
has_deep (cons (literal l) r) = has_deep r
has_deep (cons (variable path segs) r) = has_deep segs || has_deep r

-- How many of them stand behind the deep wildcard.
unfoldable pub behind : Segments → ℕ
unfolding has_deep singles
behind nil = 0
behind (cons wildcard r) = behind r
behind (cons deep_wildcard r) = singles r
behind (cons (literal l) r) = behind r
behind (cons (variable path segs) r) =
    let first = behind segs in
    let second = behind r in if has_deep segs then first + singles r else second

-- A path matches if the segments read all of it; each variable is bound to its text.
abbrev pub bound : Segments → Option Reading → Outcome (Map Text)
bound segs none = not_match
bound segs (some (ts, caps, [])) = matched (bind_vars (paths segs) caps [])
bound segs (some (ts, caps, c ∷ cs)) = not_match

unfoldable pub meaning : Segments → List Text → Outcome (Map Text)
unfolding read_segments behind
meaning segs cs = bound segs (read_segments (behind segs) segs cs)

abbrev pub IsNonempty : Text → Type 0
IsNonempty [] = ⊥
IsNonempty (c ∷ t) = Unit

-- Every literal has a text, and there is no variable: the segments inside of a variable.
unfoldable pub IsFlat : Segments → Type 0
IsFlat nil = Unit
IsFlat (cons wildcard r) = IsFlat r
IsFlat (cons deep_wildcard r) = IsFlat r
IsFlat (cons (literal l) r) = IsNonempty l × IsFlat r
IsFlat (cons (variable path segs) r) = ⊥

-- Every literal has a text, and every variable has a path and no variable inside.
unfoldable pub IsPlain : Segments → Type 0
unfolding IsFlat
IsPlain nil = Unit
IsPlain (cons wildcard r) = IsPlain r
IsPlain (cons deep_wildcard r) = IsPlain r
IsPlain (cons (literal l) r) = IsNonempty l × IsPlain r
IsPlain (cons (variable path segs) r) = IsNonempty path × IsFlat segs × IsPlain r
