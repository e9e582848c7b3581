-- ===== src/Cache/Errors.antt =====
-- What the cache in memory answers after any calls, errors included.
use native.Mathlib.Nat.{mod-eq_of_lt}
use realmicro.Common.{
  ℕ, zero, suc, ◌+◌, ◌-◌, ◌%◌, ◌^◌, ◌<◌, All, not, ◌&&◌, Bool-cases, lt→ltb, ltb→lt, ◌≡◌, refl, sym,
  ap, ◌∙◌, Text, List, [], ◌∷◌, Bool, true, false, Option, none, some, ℤ, pos, negsuc, ltb, teq,
  teq_iff, lookup, lookup-insert, lookup-delete, if◌then◌else◌, Option-cases, inl, inr, arith,
}
use realmicro.Cache.{
  Item, MemCache, expiration, Error, item_expired, key_not_found, Reply, got, failed, new_cache,
  is_expired, get_item, get, or_default, int64, expiration_at, put, delete_found, delete_key,
}

module _ (V : Type 0) where
  pub data Call : Type 0 where
    putting : ℕ → Text → V → ℤ → Call
    deleting : Text → Call

-- A duration, which is an int of 64 bits.
abbrev pub IsDuration : ℤ → Type 0
IsDuration (pos d) = d < 2 ^ 63
IsDuration (negsuc d) = d < 2 ^ 63

or_default-IsDuration : (d e : ℤ) → IsDuration d → IsDuration e → IsDuration (or_default d e)
or_default-IsDuration (pos zero) e h k = k
or_default-IsDuration (pos (suc n)) e h k = h
or_default-IsDuration (negsuc n) e h k = h

int64-small : (n : ℕ) → n < 2 ^ 63 → int64 n ≡ pos n
unfolding int64
int64-small n h =
    let same : n % 2 ^ 64 ≡ n = mod-eq_of_lt {n = n} {m = 2 ^ 64} (omega (arith, h)) in
    rw (same, lt→ltb n (2 ^ 63) h) refl

int64-large : (n : ℕ) → ltb n (2 ^ 63) ≡ false → n < 2 ^ 64 → int64 n ≡ negsuc (2 ^ 64 - 1 - n)
unfolding int64
int64-large n h k = rw (mod-eq_of_lt {n = n} {m = 2 ^ 64} k, h) refl

module _ {V : Type 0} where
  -- The clock shows an int64 of nanoseconds.
  abbrev pub IsTimed : Call V → Type 0
  IsTimed (putting now key val d) = (now < 2 ^ 63) × IsDuration d
  IsTimed (deleting key) = Unit

  unfoldable pub run : List (Call V) → MemCache V → MemCache V
  unfolding put delete_key
  run [] c = c
  run (putting now key val d ∷ cs) c = run cs (put now key val d c)
  run (deleting key ∷ cs) c = run cs (delete_key key c).0

  -- The last `Put` for a key that no `Delete` came after, with its clock reading, value and duration.
  unfoldable pub last_put : Text → Option (ℕ × V × ℤ) → List (Call V) → Option (ℕ × V × ℤ)
  last_put k acc [] = acc
  last_put k acc (putting now key val d ∷ cs) =
      last_put k (if teq key k then some (now, val, d) else acc) cs
  last_put k acc (deleting key ∷ cs) = last_put k (if teq key k then none else acc) cs

  -- What is got at a later clock reading of a value put with a duration, the default put in.
  abbrev pub value_at : ℕ → V → ℕ → ℤ → Reply V
  value_at later val now (pos zero) = got val (pos 0)
  value_at later val now (negsuc d) = got val (pos 0)
  value_at later val now (pos (suc d)) =
      if ltb (now + suc d) (2 ^ 63) && not (ltb (now + suc d) later)
      then got val (pos (now + suc d))
      else failed item_expired

  abbrev pub answer : ℤ → ℕ → Option (ℕ × V × ℤ) → Reply V
  answer default later none = failed key_not_found
  answer default later (some (now, val, d)) = value_at later val now (or_default d default)

  abbrev pub delete_error : Option (ℕ × V × ℤ) → Option Error
  delete_error none = some key_not_found
  delete_error (some p) = none

  abbrev stored : ℤ → Option (ℕ × V × ℤ) → Option (Item V)
  stored default none = none
  stored default (some (now, val, d)) =
      some (record { value = val; expiration = expiration_at now (or_default d default) })

  record Tracks (default : ℤ) (k : Text) (acc : Option (ℕ × V × ℤ)) (c : MemCache V) : Type 0 where
    same_default : c.opts.expiration ≡ default
    entry : lookup k c.items ≡ stored default acc

  put-Tracks :
      (default : ℤ) (k key : Text) (now : ℕ) (val : V) (d : ℤ) (acc : Option (ℕ × V × ℤ))
      (c : MemCache V)
      → Tracks default k acc c
      → Tracks default k (if teq key k then some (now, val, d) else acc) (put now key val d c)
  unfolding put
  put-Tracks default k key now val d acc c t = record {
    same_default = t.same_default;
    entry =
        lookup-insert key k
          (record { value = val; expiration = expiration_at now (or_default d c.opts.expiration) })
          c.items
        ∙ ap
            (λ (x : ℤ).
              if teq key k
              then some (record { value = val; expiration = expiration_at now (or_default d x) })
              else lookup k c.items)
            t.same_default
        ∙ go (teq key k);
  }
    where
      go :
          (b : Bool)
          → (if b
              then some
                  (record { value = val; expiration = expiration_at now (or_default d default) })
              else lookup k c.items)
            ≡ stored default (if b then some (now, val, d) else acc)
      go true = refl
      go false = t.entry

  delete_key-Tracks :
      (default : ℤ) (k key : Text) (acc : Option (ℕ × V × ℤ)) (c : MemCache V)
      → Tracks default k acc c
      → Tracks default k (if teq key k then none else acc) (delete_key key c).0
  unfolding delete_key
  delete_key-Tracks default k key acc c t = elim (Option-cases (lookup key c.items)) [
    | inl e ↦ rw e (record { same_default = t.same_default; entry = absent e (teq key k) refl })
    | inr (item, e) ↦ rw e (record {
      same_default = t.same_default;
      entry = lookup-delete key k c.items ∙ present (teq key k);
    })
  ]
    where
      absent :
          lookup key c.items ≡ none
          → (b : Bool) → teq key k ≡ b
          → lookup k c.items ≡ stored default (if b then none else acc)
      absent e true same = ap (λ x. lookup x c.items) (sym ((teq_iff key k).0 same)) ∙ e
      absent e false same = t.entry

      present :
          (b : Bool)
          → (if b then none else lookup k c.items) ≡ stored default (if b then none else acc)
      present true = refl
      present false = t.entry

  run-Tracks :
      (default : ℤ) (k : Text) (cs : List (Call V)) (acc : Option (ℕ × V × ℤ)) (c : MemCache V)
      → Tracks default k acc c
      → Tracks default k (last_put k acc cs) (run cs c)
  unfolding run last_put
  run-Tracks default k [] acc c t = t
  run-Tracks default k (putting now key val d ∷ cs) acc c t =
      run-Tracks default k cs _ (put now key val d c) (put-Tracks default k key now val d acc c t)
  run-Tracks default k (deleting key ∷ cs) acc c t =
      run-Tracks default k cs _ (delete_key key c).0 (delete_key-Tracks default k key acc c t)

  abbrev IsTimedPut : Option (ℕ × V × ℤ) → Type 0
  IsTimedPut none = Unit
  IsTimedPut (some (now, val, d)) = (now < 2 ^ 63) × IsDuration d

  last_put-IsTimedPut :
      (k : Text) (cs : List (Call V)) (acc : Option (ℕ × V × ℤ))
      → All IsTimed cs
      → IsTimedPut acc
      → IsTimedPut (last_put k acc cs)
  unfolding last_put
  last_put-IsTimedPut k [] acc timed h = h
  last_put-IsTimedPut k (putting now key val d ∷ cs) acc timed h =
      last_put-IsTimedPut k cs _ timed.1 (go (teq key k))
    where
      go : (b : Bool) → IsTimedPut (if b then some (now, val, d) else acc)
      go true = timed.0
      go false = h
  last_put-IsTimedPut k (deleting key ∷ cs) acc timed h =
      last_put-IsTimedPut k cs _ timed.1 (go (teq key k))
    where
      go : (b : Bool) → IsTimedPut (if b then none else acc)
      go true = tt
      go false = h

  get_item-stored :
      (default : ℤ) (later : ℕ) (acc : Option (ℕ × V × ℤ))
      → IsDuration default
      → IsTimedPut acc
      → get_item later (stored default acc) ≡ answer default later acc
  unfolding is_expired expiration_at
  get_item-stored default later none h timed = refl
  get_item-stored default later (some (now, val, d)) h timed =
      go (or_default d default) (or_default-IsDuration d default timed.1 h)
    where
      go :
          (e : ℤ)
          → IsDuration e
          → get_item later (some (record { value = val; expiration = expiration_at now e }))
            ≡ value_at later val now e
      go (pos zero) h = refl
      go (negsuc e) h = refl
      go (pos (suc e)) h = elim (Bool-cases (ltb (now + suc e) (2 ^ 63))) [
        | inl small ↦
            rw (int64-small (now + suc e) (ltb→lt (now + suc e) (2 ^ 63) small), small)
              (ground arith)
        | inr large ↦ rw (int64-large (now + suc e) large (omega (arith, timed.0, h)), large) refl
      ]

  delete_found-stored :
      (default : ℤ) (key : Text) (acc : Option (ℕ × V × ℤ)) (c : MemCache V)
      → (delete_found key c (stored default acc)).1 ≡ delete_error acc
  delete_found-stored default key none c = refl
  delete_found-stored default key (some p) c = refl

  -- After any calls of `Put` and `Delete` on a new cache with a default duration, all the clock
  -- readings and durations ints of 64 bits, the answers are those of the last `Put` for the key. `Get`
  -- gives ErrKeyNotFound where there is none or a `Delete` came after it; ErrItemExpired where its
  -- duration, or the default for a duration of 0, is positive and over, or ends at an instant that
  -- is no int of 64 bits; and else its value. `Delete` gives ErrKeyNotFound exactly where there is
  -- none or a `Delete` came after it.
  pub get-delete_key :
      (default : ℤ) (cs : List (Call V)) (later : ℕ) (k : Text)
      → IsDuration default
      → All IsTimed cs
      → (get later k (run cs (new_cache (expiration default ∷ [])))
          ≡ answer default later (last_put k none cs))
        × ((delete_key k (run cs (new_cache (expiration default ∷ [])))).1
            ≡ delete_error (last_put k none cs))
  unfolding get new_cache delete_key
  get-delete_key default cs later k h timed =
      let t : Tracks default k (last_put k none cs) (run cs (new_cache (expiration default ∷ []))) =
        run-Tracks default k cs none (new_cache (expiration default ∷ []))
          (record { same_default = refl; entry = refl }) in
      (
        ap (get_item later) t.entry
            ∙ get_item-stored default later (last_put k none cs) h
                (last_put-IsTimedPut k cs none timed tt),
        ap (λ o. (delete_found k (run cs (new_cache (expiration default ∷ []))) o).1) t.entry
            ∙ delete_found-stored default k (last_put k none cs)
                (run cs (new_cache (expiration default ∷ []))),
      )
