-- ===== src/HttpRule/Chars.antt =====
-- The character classes of parse.go: `isHexDigit`, `expectPChars` and `expectIdent`. A byte above
-- 127 is in none of them, so a rune that Go decodes and a byte get the same answer.
use realmicro.Common.{
  ℕ, Text, [], ◌∷◌, Bool, true, false, ◌&&◌, ◌||◌, leb, ◌==◌, if◌then◌else◌, codes, any_of,
}

abbrev pub in_range : ℕ → ℕ → ℕ → Bool
in_range lo hi r = leb lo r && leb r hi

unfoldable pub is_hex_digit : ℕ → Bool
is_hex_digit r = in_range b'0' b'9' r || in_range b'A' b'F' r || in_range b'a' b'f' r

-- The two character cases of `expectIdent` other than digits.
unfoldable pub is_alpha : ℕ → Bool
is_alpha r = in_range b'A' b'Z' r || in_range b'a' b'z' r || r == b'_'

abbrev pub is_digit : ℕ → Bool
is_digit r = in_range b'0' b'9' r

-- unreserved, sub-delims and the rest of pchar, less pct-encoded
unfoldable pub is_pchar : ℕ → Bool
is_pchar r =
    in_range b'A' b'Z' r
    || in_range b'a' b'z' r
    || in_range b'0' b'9' r
    || any_of (λ c. c == r) (codes "-._~!$&'()*+,;=:@")

-- The constants init, pct1 and pct2 of `expectPChars`.
pub data PctState : Type 0 where
  init pct1 pct2 : PctState

-- The loop of `expectPChars`: false stands for any of its errors.
unfoldable pub expect_pchars_from : PctState → Text → Bool
unfolding is_hex_digit is_pchar
expect_pchars_from init [] = true
expect_pchars_from pct1 [] = false
expect_pchars_from pct2 [] = false
expect_pchars_from pct1 (r ∷ t) = is_hex_digit r && expect_pchars_from pct2 t
expect_pchars_from pct2 (r ∷ t) = is_hex_digit r && expect_pchars_from init t
expect_pchars_from init (r ∷ t) =
    let plain = expect_pchars_from init t in
    let coded = expect_pchars_from pct1 t in
    if is_pchar r then plain else if r == b'%' then coded else false

unfoldable pub expect_pchars : Text → Bool
unfolding expect_pchars_from
expect_pchars t = expect_pchars_from init t

-- The loop of `expectIdent` after its first rune.
unfoldable pub expect_ident_rest : Text → Bool
unfolding is_alpha
expect_ident_rest [] = true
expect_ident_rest (r ∷ t) = (is_digit r || is_alpha r) && expect_ident_rest t

unfoldable pub expect_ident : Text → Bool
unfolding is_alpha expect_ident_rest
expect_ident [] = false
expect_ident (r ∷ t) = is_alpha r && expect_ident_rest t
