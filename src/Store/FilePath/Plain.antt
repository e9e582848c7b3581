-- ===== src/Store/FilePath/Plain.antt =====
-- `filepath.Join` of plain names, which have no slash and are neither empty nor a dot or two.
use mathlib.Core.List.{reverse-cons, reverse-reverse}
use realmicro.Common.{
  ◌≡◌, ◌≢◌, refl, sym, ap, ◌∙◌, Text, List, [], ◌∷◌, ◌++◌, false, teq, teq_iff, codes, reverse,
  split, join, All, append_assoc, append-nil, arith, Bool-cases, inl, inr,
}
use realmicro.Common.Splitting.{Lacks, split-join}
use realmicro.Store.FilePath.{
  dot, dot_dot, is_rooted, is_empty, clean_loop, non_empty, clean, join_path,
}

abbrev pub IsPlain : Text → Type 0
IsPlain t = (t ≢ []) × (t ≢ dot) × (t ≢ dot_dot) × Lacks b'/' t

abbrev slash : Text
slash = codes "/"

-- Joined names come apart again.
split-names :
    (a : Text) (cs : List Text)
    → IsPlain a
    → All IsPlain cs
    → split b'/' (join (a ∷ cs) slash) ≡ a ∷ cs
split-names a cs h hs = split-join b'/' a cs h.3 (go cs hs)
  where
    go : (cs : List Text) → All IsPlain cs → All (Lacks b'/') cs
    go [] hs = tt
    go (c ∷ cs) hs = (hs.0.3, go cs hs.1)

is_empty-plain : (t : Text) → IsPlain t → is_empty t ≡ false
is_empty-plain [] h = absurd (h.0 refl)
is_empty-plain (c ∷ t) h = refl

teq-ne : (s t : Text) → s ≢ t → teq s t ≡ false
teq-ne s t h = elim (Bool-cases (teq s t)) [ inl e ↦ absurd (h ((teq_iff s t).0 e)) | inr e ↦ e ]

clean_loop-plain :
    (done cs : List Text) → All IsPlain cs → clean_loop false done cs ≡ reverse cs ++ done
unfolding clean_loop
clean_loop-plain done [] h = refl
clean_loop-plain done (c ∷ cs) h =
    rw (is_empty-plain c h.0, teq-ne c dot h.0.1, teq-ne c dot_dot h.0.2)
      (clean_loop-plain (c ∷ done) cs h.1
        ∙ sym (append_assoc (reverse cs) (c ∷ []) done)
        ∙ ap (λ l. l ++ done) (sym (reverse-cons c cs)))

is_rooted-plain : (a t : Text) → IsPlain a → is_rooted (a ++ t) ≡ false
unfolding teq
is_rooted-plain [] t h = absurd (h.0 refl)
is_rooted-plain (c ∷ a) t h = rw h.3.0 refl

non_empty-plain : (a t : Text) → IsPlain a → non_empty (a ++ t) ≡ a ++ t
non_empty-plain [] t h = absurd (h.0 refl)
non_empty-plain (c ∷ a) t h = refl

-- The first name stands in front.
front : List Text → Text
front [] = []
front (b ∷ cs) = slash ++ join (b ∷ cs) slash

join-front : (a : Text) (cs : List Text) → join (a ∷ cs) slash ≡ a ++ front cs
unfolding join front
join-front a [] = sym (append-nil a)
join-front a (b ∷ cs) = refl

clean-join :
    (a : Text) (cs : List Text)
    → IsPlain a
    → All IsPlain cs
    → clean (join (a ∷ cs) slash) ≡ join (a ∷ cs) slash
unfolding clean
clean-join a cs h hs =
    let rooted : is_rooted (join (a ∷ cs) slash) ≡ false =
      ap is_rooted (join-front a cs) ∙ is_rooted-plain a (front cs) h in
    rw rooted (
      ap (λ l. non_empty (join (reverse (clean_loop false [] l)) slash)) (split-names a cs h hs)
      ∙ ap (λ l. non_empty (join (reverse l) slash)) (clean_loop-plain [] (a ∷ cs) (h, hs))
      ∙ ap (λ l. non_empty (join (reverse l) slash)) (append-nil (reverse (a ∷ cs)))
      ∙ ap (λ l. non_empty (join l slash)) (reverse-reverse (a ∷ cs))
      ∙ ap non_empty (join-front a cs)
      ∙ non_empty-plain a (front cs) h
      ∙ sym (join-front a cs))

abbrev pub place : Text → Text → Text → Text
place a b c = join (a ∷ (b ∷ (c ∷ []))) slash

join_path-eq : (a b : Text) → a ≢ [] → b ≢ [] → join_path a b ≡ clean (a ++ (slash ++ b))
unfolding join_path
join_path-eq [] b h k = absurd (h refl)
join_path-eq (c ∷ a) [] h k = absurd (k refl)
join_path-eq (c ∷ a) (d ∷ b) h k = refl

pub join_path-plain : (a b : Text) → IsPlain a → IsPlain b → join_path a b ≡ a ++ (slash ++ b)
join_path-plain a b h k = join_path-eq a b h.0 k.0 ∙ unfold join in clean-join a (b ∷ []) h (k, tt)

append-ne_nil : (a t : Text) → a ≢ [] → a ++ t ≢ []
append-ne_nil [] t h e = h refl
append-ne_nil (c ∷ a) t h e = ground arith

pub join_path-place :
    (a b c : Text) → IsPlain a → IsPlain b → IsPlain c → join_path (join_path a b) c ≡ place a b c
join_path-place a b c h k l =
    ap (λ p. join_path p c) (join_path-plain a b h k)
    ∙ join_path-eq (a ++ (slash ++ b)) c (append-ne_nil a (slash ++ b) h.0) l.0
    ∙ ap clean (append_assoc a (slash ++ b) (slash ++ c))
    ∙ unfold join in clean-join a (b ∷ (c ∷ [])) h (k, (l, tt))

-- Two places are one only if their names are.
pub place_injective :
    (a b c a' b' c' : Text)
    → All IsPlain (a ∷ (b ∷ (c ∷ [])))
    → All IsPlain (a' ∷ (b' ∷ (c' ∷ [])))
    → place a b c ≡ place a' b' c'
    → (a ≡ a') × (b ≡ b') × (c ≡ c')
place_injective a b c a' b' c' h h' e =
    let names : a ∷ (b ∷ (c ∷ [])) ≡ a' ∷ (b' ∷ (c' ∷ [])) =
      sym (split-names a (b ∷ (c ∷ [])) h.0 h.1)
      ∙ ap (split b'/') e
      ∙ split-names a' (b' ∷ (c' ∷ [])) h'.0 h'.1 in
    (cc, cc, cc)
