-- ===== src/Store/GoCache.antt =====
-- The third-party cache `github.com/patrickmn/go-cache` that store/memory.go and client/cache.go call: its
-- operations as a parameter, with what its documentation says of them as laws. An item that is set
-- with a duration above 0 is gone after it, where its end is an int64 of nanoseconds, as the cache
-- stores it; with any other duration it stays, for the caches here, which are made with
-- `NoExpiration`.
pub mod Listed
use realmicro.Common.{
  ℕ, zero, suc, ◌+◌, ◌^◌, ◌<◌, ◌≡◌, refl, Text, List, [], ◌∷◌, Bool, true, Option, none, some, ℤ,
  pos, negsuc, leb, teq, if◌then◌else◌, Map, lookup, insert, delete, lookup-insert, lookup-delete,
  Bool-cases, inl, inr,
}

-- An item set at `now` for the duration is there at a later clock reading.
abbrev pub is_live : ℤ → ℕ → ℕ → Bool
is_live (negsuc d) now later = true
is_live (pos zero) now later = true
is_live (pos (suc d)) now later = leb later (now + suc d)

-- The duration ends at an instant that is an int64 of nanoseconds, if it ends.
abbrev pub IsTimely : ℤ → ℕ → Type 0
IsTimely (negsuc d) now = Unit
IsTimely (pos zero) now = Unit
IsTimely (pos (suc d)) now = now + suc d < 2 ^ 63

pub record GoCache (V : Type 0) : Type 1 where
  pub State : Type 0
  pub empty : State
  pub get : ℕ → Text → State → Option V
  pub put : ℕ → Text → V → ℤ → State → State
  pub remove : Text → State → State
  pub items : ℕ → State → List (Text × V)
  pub get-empty : (now : ℕ) (k : Text) → get now k empty ≡ none
  pub get-put :
      (now later : ℕ) (k j : Text) (v : V) (d : ℤ) (s : State)
      → IsTimely d now
      → get later j (put now k v d s)
        ≡ (if teq k j then (if is_live d now later then some v else none) else get later j s)
  pub get-remove :
      (now : ℕ) (k j : Text) (s : State)
      → get now j (remove k s) ≡ (if teq k j then none else get now j s)
  pub items-get : (now : ℕ) (k : Text) (s : State) → lookup k (items now s) ≡ get now k s
