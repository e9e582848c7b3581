-- ===== src/Examples/Stores.antt =====
-- The store and the cache in memory (store, cache) and metadata on small inputs.
use realmicro.Common.{
  ℕ, ◌-◌, ◌^◌, Text, List, [], ◌∷◌, false, none, some, ℤ, pos, ◌≡◌, refl, codes, teq, arith, Map,
  lookup,
}
use realmicro.Store.{Record, read_from, write_to, write_ttl, write_expiry, delete_from}
use realmicro.Store.GoCache.Listed.{listed}
use realmicro.Store.FilePath.Plain.{IsPlain}
use realmicro.Store.Memory.{StoreRecord, new_store, read, or_default}
use realmicro.Store.Memory.Written.{
  Call, written, deleted, latest, given, written_to, deleted_from, reply,
}
use realmicro.Store.Memory.Reading.{run, read-latest}
use realmicro.Cache.{
  new_cache, expiration, get, delete_key, got, failed, item_expired, key_not_found,
}
use realmicro.Cache.Errors as Cached
use realmicro.Cache.Errors.{get-delete_key, last_put, answer, delete_error}
use realmicro.Metadata.{or_empty, merge_context}
use realmicro.Metadata.Merging.{merged, merge_context-merged}

abbrev users : Text
users = codes "users"

users-IsPlain : IsPlain users
users-IsPlain =
    (λ e. cc, λ e. ground arith, λ e. ground arith, (refl, (refl, (refl, (refl, (refl, tt))))))

a-IsPlain : IsPlain (codes "a")
a-IsPlain = (λ e. cc, λ e. ground arith, λ e. ground arith, (refl, tt))

b-IsPlain : IsPlain (codes "b")
b-IsPlain = (λ e. cc, λ e. ground arith, λ e. ground arith, (refl, tt))

ada-IsPlain : IsPlain (codes "ada")
ada-IsPlain = (λ e. cc, λ e. ground arith, λ e. ground arith, (refl, (refl, (refl, tt))))

abbrev note : Text → ℤ → Record Text
note value expiry = record { metadata = none; key = codes "ada"; value = value; expiry = expiry }

abbrev calls : List (Call Text)
calls =
    written 100 (note (codes "x") (pos 0)) (write_to users (codes "a") ∷ [])
    ∷ written 110 (note (codes "y") (pos 0)) []
    ∷ deleted (codes "ada") (delete_from users (codes "b") ∷ [])
    ∷ written 120 (note (codes "z") (pos 7))
        (write_ttl (pos 50) ∷ write_to users (codes "a") ∷ write_expiry (pos 500) ∷ [])
    ∷ []

-- Written twice, the second time for 50 ticks at 120.
latest_ada :
    latest users (codes "a") (codes "ada") none calls ≡ some (120, note (codes "z") (pos 50))
unfolding latest given written_to teq
latest_ada = refl

realmicro-IsPlain : IsPlain (codes "realmicro")
realmicro-IsPlain = (
  λ e. cc,
  λ e. ground arith,
  λ e. ground arith,
  (refl, (refl, (refl, (refl, (refl, (refl, (refl, (refl, (refl, tt))))))))),
)

read-latest_example :
    read
      (listed (StoreRecord Text))
      130
      (codes "ada")
      (read_from users (codes "a") ∷ [])
      (run (listed (StoreRecord Text)) calls (new_store (listed (StoreRecord Text)) []))
    ≡ reply 130 (latest users (codes "a") (codes "ada") none calls)
unfolding written_to deleted_from given or_default
read-latest_example =
    read-latest (listed (StoreRecord Text)) calls 130 users (codes "a") (codes "ada")
      (
        ((users-IsPlain, (a-IsPlain, (ada-IsPlain, tt))), tt),
        (
          ((realmicro-IsPlain, (realmicro-IsPlain, (ada-IsPlain, tt))), tt),
          (
            (users-IsPlain, (b-IsPlain, (ada-IsPlain, tt))),
            (((users-IsPlain, (a-IsPlain, (ada-IsPlain, tt))), omega arith), tt),
          ),
        ),
      )
      (users-IsPlain, (a-IsPlain, (ada-IsPlain, tt)))

abbrev puts : List (Cached.Call ℕ)
puts =
    Cached.putting 10 (codes "k") 1 (pos 5)
    ∷ Cached.putting 11 (codes "k") 2 (pos 0)
    ∷ Cached.deleting (codes "j")
    ∷ []

cache_answers :
    (get 15 (codes "k") (Cached.run puts (new_cache (expiration (pos 4) ∷ []))) ≡ got 2 (pos 15))
    × (get 16 (codes "k") (Cached.run puts (new_cache (expiration (pos 4) ∷ [])))
        ≡ failed item_expired)
    × (get 16 (codes "j") (Cached.run puts (new_cache (expiration (pos 4) ∷ [])))
        ≡ failed key_not_found)
unfolding get Cached.run new_cache teq
cache_answers = (refl, refl, refl)

get-delete_key_example :
    (get 16 (codes "k") (Cached.run puts (new_cache (expiration (pos 4) ∷ [])))
      ≡ answer (pos 4) 16 (last_put (codes "k") none puts))
    × ((delete_key (codes "k") (Cached.run puts (new_cache (expiration (pos 4) ∷ [])))).1
        ≡ delete_error (last_put (codes "k") none puts))
get-delete_key_example =
    get-delete_key (pos 4) puts 16 (codes "k") (omega arith)
      ((omega arith, omega arith), ((omega arith, omega arith), (tt, tt)))

-- The longest duration is over at once.
longest_lem :
    get {V = ℕ} 11
      (codes "k")
      (Cached.run (Cached.putting 10 (codes "k") 1 (pos (2 ^ 63 - 1)) ∷ []) (new_cache []))
    ≡ failed item_expired
unfolding get Cached.run new_cache teq
longest_lem = refl

abbrev headers : Map Text
headers = (codes "A", codes "1") ∷ (codes "B", codes "2") ∷ []

abbrev patch : Map Text
patch = (codes "A", codes "3") ∷ (codes "C", []) ∷ []

merge_context-merged_example :
    lookup (codes "A") (or_empty (merge_context (some headers) patch false))
    ≡ merged false (lookup (codes "A") patch) (lookup (codes "A") headers)
unfolding lookup teq
merge_context-merged_example =
    merge_context-merged (some headers) patch false (codes "A") (refl, (refl, tt))
