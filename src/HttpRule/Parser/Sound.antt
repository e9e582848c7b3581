-- ===== src/HttpRule/Parser/Sound.antt =====
-- Results of the parser (parse.go) that are no faults of the model, and `accept` on tokens that end
-- in `eof`.
use realmicro.Common.{
  ℕ, ◌≤◌, ◌<◌, ◌≡◌, refl, Text, List, [], ◌∷◌, ◌++◌, false, length, arith, Bool-cases, inl, inr,
  codes, ◌⊎◌,
}
use realmicro.HttpRule.Tokens.{eof}
use realmicro.HttpRule.Parser.{
  no_token, no_fuel, Result, ok, err, ◌>>=◌, Term, symbol, ident, literal_chars, end_of_file,
  Parser, takes, accept_from, accept, refusal,
}

-- The tokens end in `eof`.
abbrev pub EndsEof : List Text → Type 0
EndsEof [] = ⊥
EndsEof (t ∷ []) = t ≡ eof
EndsEof (t ∷ (u ∷ ts)) = EndsEof (u ∷ ts)

-- A result that is no fault of the model, and whose value, if any, satisfies `P`.
abbrev pub Sound {ℓ} : {A : Type ℓ} → (A → Type 0) → Result A → Type 0
Sound P (ok a) = P a
Sound P (err no_token) = ⊥
Sound P (err no_fuel) = ⊥
Sound P (err _) = Unit

-- The parser went on from `n` tokens: fewer are left, and they end in `eof`.
abbrev pub Left : ℕ → Parser → Type 0
Left n p = EndsEof p.tokens × (length p.tokens < n)

abbrev pub LeftOf {ℓ} : {A : Type ℓ} → ℕ → A × Parser → Type 0
LeftOf n r = Left n r.1

pub Sound->>= {ℓ κ} :
    {A : Type ℓ} {B : Type κ} (P : A → Type 0) (Q : B → Type 0) (m : Result A) (f : A → Result B)
    → Sound P m
    → ((a : A) → P a → Sound Q (f a))
    → Sound Q (m >>= f)
Sound->>= P Q (ok a) f h k = k a h
Sound->>= P Q (err no_token) f h k = h
Sound->>= P Q (err no_fuel) f h k = h
Sound->>= P Q (err _) f h k = tt

-- A term other than `end_of_file` refuses `eof`.
abbrev pub RefusesEof : Term → Type 0
RefusesEof term = takes term eof ≡ false

abbrev Accepted : Term → List Text → List Text → Type 0
Accepted term ts done =
    ((r : Text × Parser) × (accept_from term ts done ≡ ok r) × Left (length ts) r.1)
    ⊎ (accept_from term ts done ≡ err (refusal term))

accept_from-cases :
    (term : Term) (ts done : List Text) → RefusesEof term → EndsEof ts → Accepted term ts done
unfolding accept_from
accept_from-cases term [] done h e = absurd e
accept_from-cases term (t ∷ []) done h e = inr (rw (e, h))
accept_from-cases term (t ∷ (u ∷ ts)) done h e = elim (Bool-cases (takes term t)) [
  | inl taken ↦
      inl ((t, record { tokens = u ∷ ts; accepted = done ++ (t ∷ []) }), rw taken, (e, omega arith))
  | inr refused ↦ inr (rw refused)
]

-- `accept` on tokens that end in `eof`: a token is taken, or the parser stays as it is.
pub accept-cases :
    (term : Term) (p : Parser)
    → RefusesEof term
    → EndsEof p.tokens
    → ((r : Text × Parser) × (accept term p ≡ ok r) × Left (length p.tokens) r.1)
      ⊎ (accept term p ≡ err (refusal term))
unfolding accept
accept-cases term p h e = accept_from-cases term p.tokens p.accepted h e

refusal-Sound {ℓ} : {A : Type ℓ} (P : A → Type 0) (term : Term) → Sound P (err (refusal term))
refusal-Sound P (symbol s) = tt
refusal-Sound P end_of_file = tt
refusal-Sound P ident = tt
refusal-Sound P literal_chars = tt

pub accept-Sound :
    (term : Term) (p : Parser)
    → RefusesEof term
    → EndsEof p.tokens
    → Sound (LeftOf (length p.tokens)) (accept term p)
accept-Sound term p h e = elim (accept-cases term p h e) [
  | inl (r, q, l) ↦ rw q l
  | inr q ↦ rw q (refusal-Sound (LeftOf {A = Text} (length p.tokens)) term)
]

pub slash-refuses : RefusesEof (symbol (codes "/"))
unfolding takes
slash-refuses = refl

pub dot-refuses : RefusesEof (symbol (codes "."))
unfolding takes
dot-refuses = refl

pub equals-refuses : RefusesEof (symbol (codes "="))
unfolding takes
equals-refuses = refl

pub star-refuses : RefusesEof (symbol (codes "*"))
unfolding takes
star-refuses = refl

pub stars-refuses : RefusesEof (symbol (codes "**"))
unfolding takes
stars-refuses = refl

pub open-refuses : RefusesEof (symbol (codes "{"))
unfolding takes
open-refuses = refl

pub close-refuses : RefusesEof (symbol (codes "}"))
unfolding takes
close-refuses = refl

pub ident-refuses : RefusesEof ident
unfolding takes
ident-refuses = refl

pub literal-refuses : RefusesEof literal_chars
unfolding takes
literal-refuses = refl

pub Left-mono {ℓ} :
    {A : Type ℓ} (m n : ℕ) (r : Result (A × Parser))
    → m ≤ n
    → Sound (LeftOf m) r
    → Sound (LeftOf n) r
Left-mono m n (ok a) h l = (l.0, omega arith)
Left-mono m n (err no_token) h l = l
Left-mono m n (err no_fuel) h l = l
Left-mono m n (err _) h l = tt
