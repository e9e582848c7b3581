-- ===== src/Api/Endpoints.antt =====
-- api/router/endpoint.go and the type of api/router/router.go. A nil map or pointer is `none`. `compiles`
-- stands for `regexp.CompilePOSIX`.
pub mod RoundTrip
pub mod Checked
use realmicro.Common.{
  ℕ, zero, suc, Text, List, [], ◌∷◌, ◌++◌, Bool, true, false, not, ◌&&◌, Option, none, some, ◌==◌,
  length, drop, map, reverse, codes, has_prefix, split, join, Map, lookup, insert, teq,
  if◌then◌else◌,
}

pub record Endpoint : Type 0 where
  pub name : Text
  pub description : Text
  pub handler : Text
  pub host : List Text
  pub method : List Text
  pub path : List Text
  pub stream : Bool

-- The encodings of the runes that `unicode.IsSpace` holds of.
abbrev pub spaces : List Text
spaces =
    map (λ c. c ∷ []) (9 ∷ 10 ∷ 11 ∷ 12 ∷ 13 ∷ 32 ∷ [])
    ++ (map (λ c. 0xC2 ∷ c ∷ []) (0x85 ∷ 0xA0 ∷ [])
        ++ ((0xE1 ∷ 0x9A ∷ 0x80 ∷ [])
            ∷ (0xE2 ∷ 0x81 ∷ 0x9F ∷ [])
            ∷ (0xE3 ∷ 0x80 ∷ 0x80 ∷ [])
            ∷ map (λ c. 0xE2 ∷ 0x80 ∷ c ∷ [])
                (0x80 ∷ 0x81 ∷ 0x82 ∷ 0x83 ∷ 0x84 ∷ 0x85 ∷ 0x86 ∷ 0x87 ∷ 0x88 ∷ 0x89 ∷ 0x8A ∷ 0xA8
                  ∷ 0xA9 ∷ 0xAF ∷ [])))

-- The length of the first of some texts that a text begins with, or 0.
unfoldable pub leading : List Text → Text → ℕ
unfolding has_prefix
leading [] t = 0
leading (p ∷ ps) t = let rest = leading ps t in if has_prefix t p then length p else rest

unfoldable pub trim_loop : List Text → ℕ → Text → Text
unfolding leading
trim_loop ps zero t = t
trim_loop ps (suc fuel) t =
    let rest = trim_loop ps fuel (drop (leading ps t) t) in if leading ps t == 0 then t else rest

-- strings.TrimSpace; each round takes at least a byte off.
unfoldable pub strip : Text → Text
unfolding trim_loop
strip s =
    let left = trim_loop spaces (length s) s in
    reverse (trim_loop (map reverse spaces) (length s) (reverse left))

abbrev pub is_empty : Text → Bool
is_empty [] = true
is_empty (c ∷ t) = false

unfoldable pub slice_loop : List Text → List Text
unfolding strip
slice_loop [] = []
slice_loop (p ∷ ps) =
    let rest = slice_loop ps in if is_empty (strip p) then rest else strip p ∷ rest

unfoldable pub slice : Text → List Text
unfolding slice_loop split
slice s = slice_loop (split b',' s)

-- The closure `set` of `Encode`.
unfoldable pub set_value : Text → Text → Map Text → Map Text
unfolding insert
set_value k [] ep = ep
set_value k (c ∷ v) ep = insert k (c ∷ v) ep

unfoldable pub encode : Option Endpoint → Option (Map Text)
unfolding set_value join
encode none = none
encode (some e) = some (
    set_value (codes "host") (join e.host (codes ",")) (
      set_value (codes "path") (join e.path (codes ",")) (
        set_value (codes "method") (join e.method (codes ",")) (
          set_value (codes "handler") e.handler (
            set_value (codes "description") e.description
              (set_value (codes "endpoint") e.name []))))))

abbrev pub or_empty : Option Text → Text
or_empty none = []
or_empty (some v) = v

-- e[k] of a map of texts
unfoldable pub value : Text → Map Text → Text
unfolding lookup
value k e = or_empty (lookup k e)

unfoldable pub decode : Option (Map Text) → Option Endpoint
unfolding slice value
decode none = none
decode (some e) = some (record {
  name = value (codes "endpoint") e;
  description = value (codes "description") e;
  method = slice (value (codes "method") e);
  path = slice (value (codes "path") e);
  host = slice (value (codes "host") e);
  handler = value (codes "handler") e;
  stream = false;
})

-- What `Validate` does: nil, an error, or the panic at the first byte of an empty path.
pub data Verdict : Type 0 where
  valid endpoint_is_nil name_required bad_regexp invalid_path invalid_handler panic : Verdict

abbrev pub last_byte : ℕ → Text → ℕ
last_byte c [] = c
last_byte c (d ∷ t) = last_byte d t

-- ps == '^' and pe == '$'
abbrev pub starts : Text → Bool
starts [] = false
starts (c ∷ t) = c == b'^'

abbrev pub ends : Text → Bool
ends [] = false
ends (c ∷ t) = last_byte c t == b'$'

module _ (compiles : Text → Bool) where
  unfoldable pub check_paths : List Text → Verdict → Verdict
  check_paths [] after = after
  check_paths ([] ∷ ps) after = panic
  check_paths ((c ∷ p) ∷ ps) after =
      let rest = check_paths ps after in
      if starts (c ∷ p) && ends (c ∷ p)
      then if compiles (c ∷ p) then rest else bad_regexp
      else if starts (c ∷ p) && not (ends (c ∷ p))
      then invalid_path
      else if not (starts (c ∷ p)) && ends (c ∷ p)
      then invalid_path
      else rest

  unfoldable pub validate : Option Endpoint → Verdict
  unfolding check_paths
  validate none = endpoint_is_nil
  validate (some e) =
      if is_empty e.name
      then name_required
      else check_paths e.path (if is_empty e.handler then invalid_handler else valid)
