-- ===== src/Store/FilePath.antt =====
-- `filepath.Join` of two elements with its `Clean`, for Unix, as store/memory.go uses it.

pub mod Plain
use realmicro.Common.{
  Text, List, [], ◌∷◌, ◌++◌, Bool, true, false, not, ◌||◌, ◌&&◌, teq, codes, reverse, split, join,
  if◌then◌else◌,
}

abbrev pub dot : Text
dot = codes "."

abbrev pub dot_dot : Text
dot_dot = codes ".."

abbrev pub is_rooted : Text → Bool
is_rooted [] = false
is_rooted (c ∷ t) = teq (c ∷ []) (codes "/")

-- ".." after the components in `done`, the last first.
abbrev pub go_up : Bool → List Text → List Text
go_up true [] = []
go_up false [] = dot_dot ∷ []
go_up rooted (c ∷ done) = if teq c dot_dot then dot_dot ∷ (c ∷ done) else done

abbrev pub is_empty : Text → Bool
is_empty [] = true
is_empty (c ∷ t) = false

unfoldable pub clean_loop : Bool → List Text → List Text → List Text
unfolding teq
clean_loop rooted done [] = done
clean_loop rooted done (c ∷ cs) =
    clean_loop rooted
      (if is_empty c || teq c dot
        then done
        else if teq c dot_dot
        then go_up rooted done
        else c ∷ done)
      cs

abbrev pub non_empty : Text → Text
non_empty [] = dot
non_empty (c ∷ t) = c ∷ t

unfoldable pub clean : Text → Text
unfolding clean_loop split join
clean path = non_empty (
    (if is_rooted path then codes "/" else [])
    ++ join (reverse (clean_loop (is_rooted path) [] (split b'/' path))) (codes "/"))

-- filepath.Join(a, b): empty elements are ignored.
unfoldable pub join_path : Text → Text → Text
unfolding clean
join_path [] [] = []
join_path [] (c ∷ b) = clean (c ∷ b)
join_path (c ∷ a) [] = clean (c ∷ a)
join_path (c ∷ a) (d ∷ b) = clean ((c ∷ a) ++ (codes "/" ++ (d ∷ b)))
