-- ===== src/HttpRule/Tokens/Lossless.antt =====
-- `tokenize` (parse.go) loses nothing: the tokens, put together again, are the path.
use realmicro.Common.{
  ℕ, zero, suc, ◌≤◌, ◌≡◌, refl, sym, ap, ◌∙◌, Text, List, [], ◌∷◌, ◌++◌, length, arith, Bool-cases,
  inl, inr, codes, teq, teq_iff, any_of, length-append, append_assoc, append-nil, Option, none,
  some, ◌==◌, ==_iff, ◌⊎◌, subst,
}
use realmicro.HttpRule.Tokens.{
  eof, Mode, init, stops, split_any, next_mode, push_token, tokens_loop, split_last_colon,
  take_verb, tokenize,
}

-- strings.Join(tokens, "")
abbrev pub concat : List Text → Text
concat [] = []
concat (t ∷ ts) = t ++ concat ts

concat-append : (xs ys : List Text) → concat (xs ++ ys) ≡ concat xs ++ concat ys
concat-append [] ys = refl
concat-append (x ∷ xs) ys = simp (concat-append xs ys, append_assoc)

abbrev Splits : Text → Option (Text × ℕ × Text) → Type 0
Splits t none = Unit
Splits t (some (before, d, after)) = before ++ (d ∷ after) ≡ t

split_any-Splits : (set t : Text) → Splits t (split_any set t)
unfolding split_any
split_any-Splits set [] = tt
split_any-Splits set (c ∷ t) = elim (Bool-cases (any_of (λ x. x == c) set)) [
  | inl here ↦ rw here refl
  | inr later ↦ rw later (go (split_any set t) (split_any-Splits set t))
]
  where
    go :
        (o : Option (Text × ℕ × Text))
        → Splits t o
        → Splits
            (c ∷ t)
            (elim o [ none ↦ none | some (before, d, after) ↦ some (c ∷ before, d, after) ])
    go none h = tt
    go (some (before, d, after)) h = ap (◌∷◌ c) h

concat-push_token :
    (before : Text) (r : ℕ) (ts : List Text)
    → concat (push_token before r ts) ≡ before ++ (r ∷ concat ts)
unfolding push_token
concat-push_token [] r ts = refl
concat-push_token (c ∷ before) r ts = refl

-- With a round for each byte the loop ends by itself, in any state.
tokens_loop-lossless :
    (fuel : ℕ) (st : Mode) (path : Text)
    → length path ≤ fuel
    → concat (tokens_loop fuel st path) ≡ path
unfolding tokens_loop
tokens_loop-lossless fuel st [] h = refl
tokens_loop-lossless zero st (c ∷ t) h = absurd (omega arith)
tokens_loop-lossless (suc fuel) st (c ∷ t) h =
    go (split_any (stops st) (c ∷ t)) refl (split_any-Splits (stops st) (c ∷ t))
      (λ st' path. tokens_loop-lossless fuel st' path)
  where
    go :
        (o : Option (Text × ℕ × Text))
        → split_any (stops st) (c ∷ t) ≡ o
        → Splits (c ∷ t) o
        → ((st' : Mode) (path : Text)
            → length path ≤ fuel
            → concat (tokens_loop fuel st' path) ≡ path)
        → concat (tokens_loop (suc fuel) st (c ∷ t)) ≡ c ∷ t
    go none e k rest = rw (e, tokens_loop) (append-nil (c ∷ t))
    go (some (before, r, after)) e k rest =
        rw (e, tokens_loop)
          (concat-push_token before r (tokens_loop fuel (next_mode st r) after)
            ∙ ap (λ z. before ++ (r ∷ z))
                (rest (next_mode st r) after
                  (omega (arith, ap length k, length-append before (r ∷ after))))
            ∙ k)

-- What a text and its cut at the last colon have to do with one another.
abbrev Cut : Text → Option (Text × Text) → Type 0
Cut t none = Unit
Cut t (some (before, after)) = before ++ (codes ":" ++ after) ≡ t

split_last_colon-Cut : (t : Text) → Cut t (split_last_colon t)
unfolding split_last_colon
split_last_colon-Cut [] = tt
split_last_colon-Cut (c ∷ t) = go (split_last_colon t) refl (split_last_colon-Cut t)
  where
    go :
        (o : Option (Text × Text))
        → split_last_colon t ≡ o
        → Cut t o
        → Cut (c ∷ t) (split_last_colon (c ∷ t))
    go (some (before, after)) e k = rw (e, split_last_colon) (ap (◌∷◌ c) k)
    go none e k = elim (Bool-cases (c == b':')) [
      | inl colon ↦
          rw (e, split_last_colon)
            (rw colon (ap (λ (x : ℕ). x ∷ t) (sym ((==_iff c b':').0 colon))))
      | inr other ↦ rw (e, split_last_colon) (rw other tt)
    ]

-- The tokens and the verb make up the path: with a colon between, or there is no verb.
abbrev pub Restores : Text → List Text × Text → Type 0
Restores path r = ((concat r.0 ≡ path) × (r.1 ≡ [])) ⊎ (concat r.0 ++ (codes ":" ++ r.1) ≡ path)

take_verb-Restores : (ts : List Text) → Restores (concat ts) (take_verb ts)
unfolding take_verb
take_verb-Restores [] = inl (refl, refl)
take_verb-Restores (t ∷ []) = go (split_last_colon t) refl (split_last_colon-Cut t)
  where
    go :
        (o : Option (Text × Text))
        → split_last_colon t ≡ o
        → Cut t o
        → Restores (t ++ []) (take_verb (t ∷ []))
    go none e k = rw (e, take_verb) (inl (refl, refl))
    go (some (before, verb)) e k = elim (Bool-cases (teq before [])) [
      | inl empty ↦
          rw (e, take_verb)
            (rw (empty, append-nil)
              (inr (
                ap (λ (z : Text). z ++ (codes ":" ++ verb)) (sym ((teq_iff before []).0 empty))
                ∙ k)))
      | inr full ↦ rw (e, take_verb) (rw (full, append-nil) (inr (k ∙ sym (append-nil t))))
    ]
take_verb-Restores (t ∷ (u ∷ r)) = elim (take_verb-Restores (u ∷ r)) [
  | inl (e, no_verb) ↦ inl (ap (λ z. t ++ z) e, no_verb)
  | inr e ↦ inr (append_assoc t _ _ ∙ ap (λ z. t ++ z) e)
]

abbrev pub without_eof : List Text → List Text
without_eof [] = []
without_eof (t ∷ []) = []
without_eof (t ∷ (u ∷ ts)) = t ∷ without_eof (u ∷ ts)

without_eof-append : (ts : List Text) → without_eof (ts ++ (eof ∷ [])) ≡ ts
without_eof-append [] = refl
without_eof-append (t ∷ []) = refl
without_eof-append (t ∷ (u ∷ ts)) = ap (◌∷◌ t) (without_eof-append (u ∷ ts))

-- `tokenize` loses nothing of a path: either there is no verb and the tokens before the final `eof`,
-- put together, are the path, or they are the path with a colon and the verb behind them.
pub tokenize-lossless :
    (path : Text) → Restores path (without_eof (tokenize path).0, (tokenize path).1)
unfolding tokenize
tokenize-lossless [] = inl (refl, refl)
tokenize-lossless (c ∷ t) = rw without_eof-append (
    subst (λ z. Restores z (take_verb ts))
      (tokens_loop-lossless (length (c ∷ t)) init (c ∷ t) (omega arith)) (take_verb-Restores ts))
  where
    ts : List Text
    ts = tokens_loop (length (c ∷ t)) init (c ∷ t)
