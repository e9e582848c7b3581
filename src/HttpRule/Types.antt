-- ===== src/HttpRule/Types.antt =====
-- api/router/util/types.go: segments and templates; the results of the parser.
use realmicro.Common.{ℕ, Text, codes, join, List, [], ◌∷◌, ◌++◌, if◌then◌else◌, teq}

-- The four implementations of the interface `segment`.
mutual
  pub data Segment : Type 0 where
    wildcard : Segment
    deep_wildcard : Segment
    literal : Text → Segment
    variable : Text → Segments → Segment

  pub data Segments : Type 0 where
    nil : Segments
    cons : Segment → Segments → Segments

pub record Template : Type 0 where
  pub verb : Text
  pub template : Text
  pub segments : Segments

abbrev pub count : Segments → ℕ
count nil = 0
count (cons s r) = ℕ.suc (count r)

-- The methods `String` of the segments; the second one gives the list that `strings.Join` takes.
unfoldable mutual
  pub segment_string : Segment → Text
  segment_string wildcard = codes "*"
  segment_string deep_wildcard = codes "**"
  segment_string (literal l) = l
  segment_string (variable path segs) =
      codes "{" ++ (path ++ (codes "=" ++ (join (segment_strings segs) (codes "/") ++ codes "}")))

  pub segment_strings : Segments → List Text
  segment_strings nil = []
  segment_strings (cons s r) = segment_string s ∷ segment_strings r

unfoldable pub template_string : Template → Text
unfolding segment_string segment_strings
template_string t =
    let str = join (segment_strings t.segments) (codes "/") in
    codes "/" ++ (if teq t.verb [] then str else str ++ (codes ":" ++ t.verb))
