-- ===== src/Api/Endpoints/RoundTrip.antt =====
-- `Decode` reads the metadata that `Encode` writes.
use mathlib.Core.List.{reverse-reverse}
use realmicro.Common.{
  ℕ, zero, suc, ◌≡◌, ◌≢◌, refl, sym, ap, ◌∙◌, Text, List, [], ◌∷◌, false, some, length, map,
  reverse, codes, join, Map, lookup, lookup-insert, teq, teq_iff, teq_refl, All, if◌then◌else◌,
  Bool-cases, inl, inr,
}
use realmicro.Common.Splitting.{Lacks, split-join}
use realmicro.Api.Endpoints.{
  Endpoint, spaces, leading, trim_loop, strip, is_empty, slice_loop, slice, set_value, encode,
  value, decode,
}

-- Not empty, without a comma, and with no space at either end.
abbrev pub IsField : Text → Type 0
IsField t =
    (t ≢ [])
    × Lacks b',' t
    × (leading spaces t ≡ 0)
    × (leading (map reverse spaces) (reverse t) ≡ 0)

trim_loop-none : (ps : List Text) (fuel : ℕ) (t : Text) → leading ps t ≡ 0 → trim_loop ps fuel t ≡ t
unfolding trim_loop
trim_loop-none ps zero t h = refl
trim_loop-none ps (suc fuel) t h = rw h refl

strip-IsField : (t : Text) → IsField t → strip t ≡ t
unfolding strip
strip-IsField t h =
    ap (λ l. reverse (trim_loop (map reverse spaces) (length t) (reverse l)))
      (trim_loop-none spaces (length t) t h.2)
    ∙ ap reverse (trim_loop-none (map reverse spaces) (length t) (reverse t) h.3)
    ∙ reverse-reverse t

is_empty-IsField : (t : Text) → IsField t → is_empty t ≡ false
is_empty-IsField [] h = absurd (h.0 refl)
is_empty-IsField (c ∷ t) h = refl

slice_loop-IsField : (ts : List Text) → All IsField ts → slice_loop ts ≡ ts
unfolding slice_loop
slice_loop-IsField [] h = refl
slice_loop-IsField (t ∷ ts) h =
    rw (strip-IsField t h.0, is_empty-IsField t h.0) (ap (◌∷◌ t) (slice_loop-IsField ts h.1))

slice-join : (ts : List Text) → All IsField ts → slice (join ts (codes ",")) ≡ ts
slice-join [] h = unfold slice join strip in refl
slice-join (t ∷ ts) h =
    unfold slice in
    (ap slice_loop (split-join b',' t ts h.0.1 (no_commas ts h.1)) ∙ slice_loop-IsField (t ∷ ts) h)
  where
    no_commas : (ts : List Text) → All IsField ts → All (Lacks b',') ts
    no_commas [] h = tt
    no_commas (t ∷ ts) h = (h.0.1, no_commas ts h.1)

-- A key that is not set yet gets the value, an empty one too.
value-set_value : (k v : Text) (m : Map Text) → value k m ≡ [] → value k (set_value k v m) ≡ v
unfolding value set_value
value-set_value k [] m h = h
value-set_value k (c ∷ v) m h = rw (lookup-insert k k (c ∷ v) m, teq_refl k) refl

value-set_value_ne :
    (k j v : Text) (m : Map Text) → teq k j ≡ false → value j (set_value k v m) ≡ value j m
unfolding value set_value
value-set_value_ne k j [] m h = refl
value-set_value_ne k j (c ∷ v) m h = rw (lookup-insert k j (c ∷ v) m, h) refl

-- The entries that `Encode` sets, the last first.
set_all : List (Text × Text) → Map Text
set_all [] = []
set_all ((k, v) ∷ r) = set_value k v (set_all r)

assoc : Text → List (Text × Text) → Text
assoc k [] = []
assoc k ((j, v) ∷ r) = if teq j k then v else assoc k r

abbrev Missing : Text → List (Text × Text) → Type 0
Missing k [] = Unit
Missing k ((j, v) ∷ r) = (teq j k ≡ false) × Missing k r

abbrev Distinct : List (Text × Text) → Type 0
Distinct [] = Unit
Distinct ((k, v) ∷ r) = Missing k r × Distinct r

value-Missing : (k : Text) (r : List (Text × Text)) → Missing k r → value k (set_all r) ≡ []
unfolding set_all
value-Missing k [] h = unfold value lookup in refl
value-Missing k ((j, v) ∷ r) h = value-set_value_ne j k v (set_all r) h.0 ∙ value-Missing k r h.1

value-set_all : (k : Text) (r : List (Text × Text)) → Distinct r → value k (set_all r) ≡ assoc k r
unfolding set_all assoc
value-set_all k [] d = unfold value lookup in refl
value-set_all k ((j, v) ∷ r) d = elim (Bool-cases (teq j k)) [
  | inl e ↦
      let same : j ≡ k = (teq_iff j k).0 e in
      rw e (
        ap (λ x. value x (set_value j v (set_all r))) (sym same)
        ∙ value-set_value j v (set_all r) (value-Missing j r d.0))
  | inr e ↦ rw e (value-set_value_ne j k v (set_all r) e ∙ value-set_all k r d.1)
]

entries : Endpoint → List (Text × Text)
entries e =
    (codes "host", join e.host (codes ","))
    ∷ (codes "path", join e.path (codes ","))
    ∷ (codes "method", join e.method (codes ","))
    ∷ (codes "handler", e.handler)
    ∷ (codes "description", e.description)
    ∷ (codes "endpoint", e.name)
    ∷ []

entries-Distinct : (e : Endpoint) → Distinct (entries e)
unfolding entries teq
entries-Distinct e = (
  (refl, (refl, (refl, (refl, (refl, tt))))),
  (
    (refl, (refl, (refl, (refl, tt)))),
    ((refl, (refl, (refl, tt))), ((refl, (refl, tt)), ((refl, tt), (tt, tt)))),
  ),
)

-- Decoding the metadata of an endpoint whose hosts, methods and paths are not empty, have no comma
-- and no space at an end gives it back, without its flag for streams, which is not encoded.
pub decode-encode :
    (e : Endpoint)
    → All IsField e.host
    → All IsField e.method
    → All IsField e.path
    → decode (encode (some e)) ≡ some (record e { stream = false })
unfolding decode encode assoc entries teq set_all
decode-encode e h m p = ap some (λ i. record {
  name = read (codes "endpoint") i;
  description = read (codes "description") i;
  method = (ap slice (read (codes "method")) ∙ slice-join e.method m) i;
  path = (ap slice (read (codes "path")) ∙ slice-join e.path p) i;
  host = (ap slice (read (codes "host")) ∙ slice-join e.host h) i;
  handler = read (codes "handler") i;
  stream = false;
})
  where
    read : (k : Text) → value k (set_all (entries e)) ≡ assoc k (entries e)
    read k = value-set_all k (entries e) (entries-Distinct e)
