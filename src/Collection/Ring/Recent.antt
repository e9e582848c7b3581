-- ===== src/Collection/Ring/Recent.antt =====
-- The ring buffer (buffer.go) keeps the most recent entries.
use mathlib.Core.Option.{some-injective}
use realmicro.Common.{
  ℕ, zero, suc, ◌+◌, ◌-◌, ◌<◌, ◌≤◌, ◌≡◌, refl, sym, ap, ◌∙◌, Text, List, [], ◌∷◌, ◌++◌, Bool,
  Option, none, some, ltb, length, drop, min, Map, pos, negsuc, arith, lt→ltb, ltb→lt, Bool-cases,
  Option-cases, inl, inr, length-append, length-drop, drop-append, append_assoc, append-nil, select,
  map,
}
use realmicro.Collection.Ring.{
  Entry, Stream, Buffer, new, push_val, offer_all, put, with_streams, get, after, since,
}

module _ {ℓ} {A : Type ℓ} where
  -- The last `n` of a list.
  abbrev pub last_of : ℕ → List A → List A
  last_of n xs = drop (length xs - n) xs

module _ {ℓ} {A : Type ℓ} where
  drop-nil : (k : ℕ) → drop {A = A} k [] ≡ []
  drop-nil zero = refl
  drop-nil (suc k) = refl

  drop-drop : (m n : ℕ) (xs : List A) → drop m (drop n xs) ≡ drop (n + m) xs
  drop-drop m zero xs = ap (λ k. drop k xs) {x = m} {y = zero + m} (omega arith)
  drop-drop m (suc n) [] = drop-nil m ∙ sym (drop-nil (suc n + m))
  drop-drop m (suc n) (x ∷ xs) =
      drop-drop m n xs ∙ ap (λ k. drop k (x ∷ xs)) {x = suc (n + m)} {y = suc n + m} (omega arith)

  -- Only the last of the history matters for what is kept of it with one more entry.
  last_of-append :
      (n : ℕ) (xs : List A) (y : A)
      → last_of n (last_of n xs ++ (y ∷ [])) ≡ last_of n (xs ++ (y ∷ []))
  last_of-append n xs y =
      ap (last_of n) (sym (drop-append (length xs - n) xs (y ∷ []) (omega arith)))
      ∙ drop-drop (length (drop (length xs - n) (xs ++ (y ∷ []))) - n) (length xs - n)
          (xs ++ (y ∷ []))
      ∙ ap (λ k. drop k (xs ++ (y ∷ [])))
          (omega (arith, length-drop (length xs - n) (xs ++ (y ∷ [])), length-append xs (y ∷ [])))

push_val-eq {ℓ} :
    {A : Type ℓ} (size : ℕ) (vals : List (Entry A)) (e : Entry A)
    → length vals ≤ size
    → push_val size vals e ≡ last_of size (vals ++ (e ∷ []))
unfolding push_val
push_val-eq {A} size vals e h = elim (Bool-cases (ltb size (length (vals ++ (e ∷ []))))) [
  | inl over ↦ rw over (
      ap (λ k. drop k grown) {x = 1} {y = length grown - size}
        (ground (arith, length-append vals (e ∷ []))))
  | inr fits ↦ rw fits (
      ap (λ k. drop k grown) {x = 0} {y = length grown - size}
        (ground (arith, length-append vals (e ∷ []))))
]
  where
    grown : List (Entry A)
    grown = vals ++ (e ∷ [])

-- A call of `Put`: its value, its clock reading and the choices of the runtime.
abbrev pub Call {ℓ} : Type ℓ → Type ℓ
Call A = (Text → Bool) × A × ℕ

module _ {ℓ} {A : Type ℓ} where
  unfoldable pub put_all : List (Call A) → Buffer A → Option (Buffer A)
  put_all [] b = some b
  put_all ((pick, v, now) ∷ cs) b = elim (put pick v now b) [
    | none ↦ none
    | some b' ↦ put_all cs b'
  ]

  abbrev pub entry_of : Call A → Entry A
  entry_of (pick, v, now) = record { value = v; timestamp = now }

  put-vals :
      (pick : Text → Bool) (v : A) (now : ℕ) (b b' : Buffer A)
      → length b.vals ≤ b.size
      → put pick v now b ≡ some b'
      → (b'.size ≡ b.size)
        × (b'.vals ≡ last_of b.size (b.vals ++ (record { value = v; timestamp = now } ∷ [])))
  unfolding put
  put-vals pick v now b b' h e = go (offer_all pick entry b.streams) e
    where
      entry : Entry A
      entry = record { value = v; timestamp = now }

      go :
          (m : Option (Map (Stream A)))
          → with_streams b (push_val b.size b.vals entry) m ≡ some b'
          → (b'.size ≡ b.size) × (b'.vals ≡ last_of b.size (b.vals ++ (entry ∷ [])))
      go none q = absurd (ground arith)
      go (some m) q = (
        ap (λ (c : Buffer A). c.size) (sym (some-injective _ _ q)),
        ap (λ (c : Buffer A). c.vals) (sym (some-injective _ _ q))
            ∙ push_val-eq b.size b.vals entry h,
      )

  within :
      (hist : List (Entry A)) (b : Buffer A) → b.vals ≡ last_of b.size hist → length b.vals ≤ b.size
  within hist b h = omega (arith, ap length h, length-drop (length hist - b.size) hist)

  put_all-vals :
      (cs : List (Call A)) (hist : List (Entry A)) (b b' : Buffer A)
      → b.vals ≡ last_of b.size hist
      → put_all cs b ≡ some b'
      → (b'.size ≡ b.size) × (b'.vals ≡ last_of b.size (hist ++ map entry_of cs))
  unfolding put_all
  put_all-vals [] hist b b' h e = (
    ap (λ (c : Buffer A). c.size) (sym (some-injective _ _ e)),
    ap (λ (c : Buffer A). c.vals) (sym (some-injective _ _ e))
        ∙ h
        ∙ ap (last_of b.size) (sym (append-nil hist)),
  )
  put_all-vals ((pick, v, now) ∷ cs) hist b b' h e = elim (Option-cases (put pick v now b)) [
    | inl q ↦ absurd (ground arith)
    | inr (b1, q) ↦
        let entry : Entry A = record { value = v; timestamp = now } in
        let (size1, vals1) = put-vals pick v now b b1 (within hist b h) q in
        let stored : b1.vals ≡ last_of b1.size (hist ++ (entry ∷ [])) =
          vals1
          ∙ ap (λ z. last_of b.size (z ++ (entry ∷ []))) h
          ∙ last_of-append b.size hist entry
          ∙ ap (λ n. last_of n (hist ++ (entry ∷ []))) (sym size1) in
        let (size2, vals2) =
          put_all-vals cs (hist ++ (entry ∷ [])) b1 b' stored (rw (q, put_all) at e) in
        (
          size2 ∙ size1,
          vals2
              ∙ ap (λ n. last_of n ((hist ++ (entry ∷ [])) ++ map entry_of cs)) size1
              ∙ ap (last_of b.size) (append_assoc hist (entry ∷ []) (map entry_of cs)),
        )
  ]

  get-last_of :
      (n : ℕ) (hist : List (Entry A)) (b : Buffer A)
      → b.vals ≡ last_of b.size hist
      → get (pos n) b ≡ last_of (min n b.size) hist
  unfolding get
  get-last_of n hist b h = elim (Bool-cases (ltb (length b.vals) n)) [
    | inl more ↦ rw more (
        h
        ∙ ap (λ k. drop k hist) {x = length hist - b.size} {y = length hist - min n b.size}
            (ground (arith, stored)))
    | inr fewer ↦ rw fewer (
        ap (drop (length b.vals - n)) h
        ∙ drop-drop (length b.vals - n) (length hist - b.size) hist
        ∙ ap (λ k. drop k hist) {x = length hist - b.size + (length b.vals - n)}
            {y = length hist - min n b.size} (ground (arith, stored)))
  ]
    where
      stored : length b.vals ≡ length hist - (length hist - b.size)
      stored = ap length h ∙ length-drop (length hist - b.size) hist

put_all-get {ℓ} :
    {A : Type ℓ} (size : ℕ) (cs : List (Call A)) (n : ℕ) (b : Buffer A)
    → put_all cs (new A size) ≡ some b
    → (get (pos n) b ≡ last_of (min n size) (map entry_of cs))
      × (get (negsuc n) b ≡ last_of size (map entry_of cs))
unfolding new get
put_all-get size cs n b e =
    let (size_eq, vals_eq) = put_all-vals cs [] (new _ size) b (sym (drop-nil (0 - size))) e in
    (
      get-last_of n (map entry_of cs) b
            (vals_eq ∙ ap (λ k. last_of k (map entry_of cs)) (sym size_eq))
          ∙ ap (λ k. last_of (min n k) (map entry_of cs)) size_eq,
      vals_eq,
    )

-- With no stream `Put` does not wait.
put_all_returns {ℓ} :
    {A : Type ℓ} (cs : List (Call A)) (b : Buffer A)
    → b.streams ≡ []
    → (b' : Buffer A) × (put_all cs b ≡ some b')
unfolding put_all
put_all_returns [] b e = (b, refl)
put_all_returns {A = A} ((pick, v, now) ∷ cs) b e =
    let (b', rest) = put_all_returns cs after_put refl in (b', rw (put_eq, put_all) rest)
  where
    after_put : Buffer A
    after_put = record b {
      vals = push_val b.size b.vals (record { value = v; timestamp = now });
      streams = [];
    }

    put_eq : put pick v now b ≡ some after_put
    put_eq = unfold put in (rw e (unfold offer_all in refl))

-- Any calls of `Put` on a new buffer return, and `Get(n)` after them returns the last of their entries
-- in order, as many as `n`, the size and the calls allow; a negative `n` is no limit.
pub get-put_all {ℓ} :
    {A : Type ℓ} (size : ℕ) (cs : List (Call A)) (n : ℕ)
    → (b : Buffer A) × (put_all cs (new A size) ≡ some b)
      × (get (pos n) b ≡ last_of (min n size) (map entry_of cs))
      × (get (negsuc n) b ≡ last_of size (map entry_of cs))
get-put_all {A = A} size cs n =
    let (b, e) = put_all_returns cs (new A size) (unfold new in refl) in
    let (limited, unlimited) = put_all-get size cs n b e in (b, e, limited, unlimited)

abbrev pub Later {ℓ} : {A : Type ℓ} → ℕ → List (Entry A) → Type 0
Later t [] = Unit
Later t (e ∷ es) = (t ≤ e.timestamp) × Later t es

-- The entries stand in the order of their time stamps.
abbrev pub Ordered {ℓ} : {A : Type ℓ} → List (Entry A) → Type 0
Ordered [] = Unit
Ordered (e ∷ es) = Later e.timestamp es × Ordered es

select-Later {ℓ} :
    {A : Type ℓ} (t u : ℕ) (es : List (Entry A))
    → t < u
    → Later u es
    → select (λ (e : Entry A). ltb t e.timestamp) es ≡ es
unfolding select
select-Later t u [] h l = refl
select-Later t u (e ∷ es) h l =
    rw (lt→ltb t e.timestamp (omega (arith, l.0))) (ap (◌∷◌ e) (select-Later t u es h l.1))

after-eq {ℓ} :
    {A : Type ℓ} (t : ℕ) (es : List (Entry A))
    → Ordered es
    → after t es ≡ select (λ (e : Entry A). ltb t e.timestamp) es
unfolding after select
after-eq t [] o = refl
after-eq t (e ∷ es) o = elim (Bool-cases (ltb t e.timestamp)) [
  | inl later ↦
      rw later (ap (◌∷◌ e) (sym (select-Later t e.timestamp es (ltb→lt t e.timestamp later) o.0)))
  | inr earlier ↦ rw earlier (after-eq t es o.1)
]

-- On a buffer whose entries are in the order of their time stamps, `Since` at a time that is neither
-- zero nor in the future returns exactly the entries after that time.
pub since-select {ℓ} :
    {A : Type ℓ} (t now : ℕ) (b : Buffer A)
    → Ordered b.vals
    → 0 < t
    → t ≤ now
    → since t now b ≡ select (λ (e : Entry A). ltb t e.timestamp) b.vals
unfolding since
since-select t now b o pos_t past = ground (arith, after-eq t b.vals o)
