-- ===== src/Examples/Routes.antt =====
-- Path templates (api/router/util) and the route tree (common/util/search) on small inputs.
use realmicro.Common.{
  arith, ℕ, Text, codes, List, [], ◌∷◌, true, Option, none, some, ℤ, pos, ◌≡◌, ◌≢◌, refl,
  has_prefix, join, teq, insert,
}
use realmicro.HttpRule.Types.{literal, variable, wildcard, nil, cons, Template, template_string}
use realmicro.HttpRule.Tokens.{tokenize}
use realmicro.HttpRule.Tokens.Lossless.{Restores, without_eof, tokenize-lossless}
use realmicro.HttpRule.Parser.{ok, err, no_token, no_fuel, unterminated_variable, parse}
use realmicro.HttpRule.Parser.Total.{parse_total}
use realmicro.HttpRule.Compiler.{compile, op_lit_push, op_push, op_concat_n, op_capture}
use realmicro.HttpRule.Runtime.{Pattern, new_pattern, matched, panic, match, bind_vars}
use realmicro.HttpRule.Runtime.Stacked.{IsStacked, new_pattern-IsStacked}
use realmicro.HttpRule.Runtime.Safety.{match-ne-panic}
use realmicro.HttpRule.Meaning.{IsPlain, IsFlat, meaning, paths}
use realmicro.HttpRule.Meaning.Matching.{match-meaning}
use realmicro.HttpRule.Meaning.Runnable.{IsRunnable}
use realmicro.HttpRule.Meaning.Accepting.{new_pattern-compile_ne_none}
use realmicro.HttpRule.Meaning.{has_deep}
use realmicro.Common.{not, if◌then◌else◌, ◌||◌}
use realmicro.HttpRule.Runtime.{add_verb, not_match}
use realmicro.Search.{
  Node, tree_add, tree_search, cut_slash, put_child, find_child, last_children, cut_slash,
  find_child, put_child,
}
use realmicro.Search.Keys.{IsKeyed, build, build-IsKeyed}
use realmicro.Search.Literal.{search-add}

-- "/v1/{name=shelves/*}:get"
abbrev shelves : Template
shelves = record {
  verb = codes "get";
  template = codes "/v1/{name=shelves/*}:get";
  segments =
      cons (literal (codes "v1"))
        (cons (variable (codes "name") (cons (literal (codes "shelves")) (cons wildcard nil))) nil);
}

parse-shelves : parse (codes "/v1/{name=shelves/*}:get") ≡ ok shelves
unfolding parse has_prefix join
parse-shelves = refl

parse_unterminated : parse (codes "/v1/{name") ≡ err unterminated_variable
unfolding parse has_prefix
parse_unterminated = refl

shelves_string : template_string shelves ≡ codes "/v1/{name=shelves/*}:get"
unfolding template_string teq join
shelves_string = refl

abbrev shelves_ops : List ℤ
shelves_ops =
    pos 2
    ∷ (pos 0 ∷ (pos 2 ∷ (pos 1 ∷ (pos 1 ∷ (pos 0 ∷ (pos 4 ∷ (pos 2 ∷ (pos 5 ∷ (pos 2 ∷ [])))))))))

abbrev shelves_pool : List Text
shelves_pool = codes "v1" ∷ (codes "shelves" ∷ (codes "name" ∷ []))

compile-shelves : (compile shelves).op_codes ≡ shelves_ops
unfolding compile
compile-shelves = refl

abbrev shelves_pattern : Pattern
shelves_pattern = record {
  verb = codes "get";
  ops =
      record { code = op_lit_push; operand = 0 }
      ∷ (record { code = op_lit_push; operand = 1 }
          ∷ (record { code = op_push; operand = 0 }
              ∷ (record { code = op_concat_n; operand = 2 }
                  ∷ (record { code = op_capture; operand = 0 } ∷ []))));
  pool = shelves_pool;
  vars = codes "name" ∷ [];
  stacksize = 3;
  tail_len = 0;
  assume_colon_verb = true;
}

new_pattern_shelves :
    new_pattern 1 shelves_ops shelves_pool (codes "get") true ≡ some shelves_pattern
unfolding new_pattern
new_pattern_shelves = refl

abbrev shelf_seven : List Text
shelf_seven = codes "v1" ∷ (codes "shelves" ∷ (codes "7" ∷ []))

match_shelf :
    match shelves_pattern shelf_seven (codes "get")
    ≡ matched ((codes "name", codes "shelves/7") ∷ [])
unfolding match join
match_shelf = refl

match-ne-panic_example : match shelves_pattern shelf_seven (codes "get") ≢ panic
match-ne-panic_example =
    match-ne-panic 1 shelves_ops shelves_pool (codes "get") true shelf_seven (codes "get")
      new_pattern_shelves

new_pattern-IsStacked_example : IsStacked shelves_pool 1 0 shelves_pattern.ops
new_pattern-IsStacked_example =
    new_pattern-IsStacked 1 shelves_ops shelves_pool (codes "get") true new_pattern_shelves

parse_total_example :
    (parse (codes "/v1/{name") ≢ err no_token) × (parse (codes "/v1/{name") ≢ err no_fuel)
parse_total_example = parse_total (codes "/v1/{name")

tokenize-lossless_example :
    Restores
      (codes "v1/{name}:get")
      (without_eof (tokenize (codes "v1/{name}:get")).0, (tokenize (codes "v1/{name}:get")).1)
tokenize-lossless_example = tokenize-lossless (codes "v1/{name}:get")

abbrev two_routes : List (Text × Option ℕ)
two_routes = (codes "/users/:id", some 1) ∷ ((codes "/users/:id/posts", some 3) ∷ [])

search_param :
    tree_search (build two_routes) (codes "/users/42") ≡ some (1, (codes "id", codes "42") ∷ [])
unfolding build tree_search tree_add cut_slash put_child realmicro.Search.match find_child
    last_children insert
search_param = refl

build-IsKeyed_example : IsKeyed (build two_routes)
build-IsKeyed_example = build-IsKeyed two_routes

added_me : (tree_add (build two_routes) (codes "/users/me") (some 2)).1 ≡ none
unfolding build tree_add cut_slash find_child put_child
added_me = refl

search-add_example :
    tree_search (tree_add (build two_routes) (codes "/users/me") (some 2)).0 (codes "/users/me")
    ≡ some (2, [])
search-add_example = search-add two_routes (codes "/users/me") 2 refl added_me

shelves-IsPlain : IsPlain shelves.segments
unfolding IsPlain IsFlat
shelves-IsPlain = (tt, (tt, (tt, tt), tt))

meaning_shelf :
    meaning shelves.segments shelf_seven ≡ matched ((codes "name", codes "shelves/7") ∷ [])
unfolding meaning teq bind_vars paths join
meaning_shelf = refl

new_pattern-compile :
    new_pattern 1 (compile shelves).op_codes (compile shelves).pool (compile shelves).verb true
    ≡ some shelves_pattern
unfolding new_pattern compile
new_pattern-compile = refl

match-meaning_example : match shelves_pattern shelf_seven (codes "put") ≡ (
    if teq (codes "get") (codes "put")
    then meaning shelves.segments shelf_seven
    else if true || not (teq (codes "get") [])
    then not_match
    else meaning shelves.segments (add_verb shelf_seven (codes "put")))
match-meaning_example =
    match-meaning shelves true shelf_seven (codes "put") shelves-IsPlain new_pattern-compile

shelves-IsRunnable : IsRunnable shelves.segments
unfolding IsRunnable has_deep
shelves-IsRunnable = (omega arith, (λ _. refl), tt, tt)

new_pattern-compile_ne_none_example :
    new_pattern 1 (compile shelves).op_codes (compile shelves).pool (compile shelves).verb true
    ≢ none
new_pattern-compile_ne_none_example =
    new_pattern-compile_ne_none shelves true shelves-IsPlain shelves-IsRunnable
